-- ===== src/Entity/Storage.antt =====
-- The class `EntityStorage` of include/hotstuff/entity.h. `Heap` holds the shared objects that the
-- counted pointers lead to: an object lives as long as a pointer to it does, so no address in use
-- dangles, and `next` is the address of the next object.
use kauri_public.Base.{
  ℕ, ◌+◌, Bool, true, false, Option, none, some, List, [], ◌==◌, is_some, if◌then◌else◌,
}
use kauri_public.Base.Maps
use kauri_public.Crypto.Scheme.{Scheme}
use kauri_public.Entity.Block.{Block}

pub record Heap (C : Scheme) : Type 0 where
  pub cell : ℕ → Block C
  pub next : ℕ

-- A command is an object of the application, of which the storage reads the hash.
pub record Command : Type 0 where
  pub hash : ℕ
  pub content : List ℕ

pub record EntityStorage : Type 0 where
  pub blk_cache : List (ℕ × ℕ)
  pub cmd_cache : List (ℕ × Command)

unfoldable pub empty_storage : EntityStorage
empty_storage = record { blk_cache = []; cmd_cache = [] }

unfoldable pub is_blk_fetched : EntityStorage → ℕ → Bool
is_blk_fetched st h = is_some (Maps.find h st.blk_cache)

unfoldable pub find_blk : EntityStorage → ℕ → Option ℕ
find_blk st h = Maps.find h st.blk_cache

unfoldable pub is_cmd_fetched : EntityStorage → ℕ → Bool
is_cmd_fetched st h = is_some (Maps.find h st.cmd_cache)

unfoldable pub find_cmd : EntityStorage → ℕ → Option Command
find_cmd st h = Maps.find h st.cmd_cache

-- `value_or p o` is `first->second` of an `insert` of `p` over an entry `o`.
abbrev pub value_or {ℓ} : {A : Type ℓ} → A → Option A → A
value_or a none = a
value_or a (some b) = b

unfoldable pub add_cmd : EntityStorage → Command → Command × EntityStorage
unfolding find_cmd
add_cmd st cmd = (
  value_or cmd (find_cmd st cmd.hash),
  record st { cmd_cache = Maps.insert cmd.hash cmd st.cmd_cache },
)

module _ {C : Scheme} where
  abbrev delivered_at : Heap C → Option ℕ → Bool
  delivered_at g none = false
  delivered_at g (some b) = (g.cell b).delivered

  unfoldable pub is_blk_delivered : Heap C → EntityStorage → ℕ → Bool
  unfolding find_blk
  is_blk_delivered g st h = delivered_at g (find_blk st h)

  -- add_blk(blk): a block that is stored under this hash stays, and is returned
  unfoldable pub add_blk : Heap C → EntityStorage → ℕ → ℕ × EntityStorage
  unfolding find_blk
  add_blk g st b =
      let h = (g.cell b).hash in
      (value_or b (find_blk st h), record st { blk_cache = Maps.insert h b st.blk_cache })

  -- p->... = ...
  unfoldable pub write : Heap C → ℕ → Block C → Heap C
  write g b v = record g { cell = λ a. if a == b then v else g.cell a }

  -- new Block(...)
  unfoldable pub alloc : Heap C → Block C → ℕ × Heap C
  alloc g v =
      (g.next, record g { cell = λ a. if a == g.next then v else g.cell a; next = g.next + 1 })

  -- add_blk(std::move(blk), config)
  unfoldable pub add_new_blk : Heap C → EntityStorage → Block C → ℕ × Heap C × EntityStorage
  unfolding alloc add_blk
  add_new_blk g st v = let (b, g') = alloc g v in let (b', st') = add_blk g' st b in (b', g', st')

  -- `cnt` is `get_cnt`, the number of pointers to the object.
  unfoldable pub try_release_blk : Heap C → EntityStorage → ℕ → ℕ → Bool × EntityStorage
  try_release_blk g st cnt b =
      if cnt == 2
      then (true, record st { blk_cache = Maps.erase (g.cell b).hash st.blk_cache })
      else (false, st)

unfoldable pub try_release_cmd : EntityStorage → ℕ → Command → Bool × EntityStorage
try_release_cmd st cnt cmd =
    if cnt == 2
    then (true, record st { cmd_cache = Maps.erase cmd.hash st.cmd_cache })
    else (false, st)
