-- ===== src/Tests/StartTests.antt =====
-- A replica after its start.
use kauri_public.Base.{refl}
use kauri_public.Core.Setup.{new_core, on_init}
use kauri_public.Core.Agreement.Calls.{Begins}
use kauri_public.Core.Agreement.Start.{add_replicas, on_init-Begins}
use kauri_public.Tests.FourReplicas.{nothing_set, four, sample_tree, sample_tree-IsTree}
use kauri_public.Tests.Samples.{plain}

on_init-Begins_example :
    Begins {C = plain} sample_tree
      (on_init 1 (add_replicas four (new_core 2 tt nothing_set (λ n. n))))
on_init-Begins_example =
    on_init-Begins sample_tree sample_tree-IsTree 2 tt nothing_set (λ n. n) four 1 refl refl
