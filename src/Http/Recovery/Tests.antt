-- ===== src/Http/Recovery/Tests.antt =====
-- A handler that writes and panics.
use backend_infrastructure_g.Base.{ℕ, ◌≡◌, ◌⊎◌, true, false, List, [], ◌∷◌, codes}
use backend_infrastructure_g.Http.Recovery.{
  Destination, Op, writes_header, writes, internal_error, panics, recovery, do_all,
  new_recovery_writer,
}
use backend_infrastructure_g.Http.Recovery.Body.{recovery-panics}

abbrev server : Destination ℕ
server = record { header = 0; sent = [] }

abbrev ops : List (Op ℕ)
ops = writes_header 201 ∷ writes (codes "half") ∷ []

recovery-panics_example :
    (((do_all ops (new_recovery_writer server)).committed ≡ true)
      × ((recovery ops panics server).1 ≡ false))
    ⊎ (((do_all ops (new_recovery_writer server)).committed ≡ false)
        × (recovery ops panics server ≡ (record server { sent = internal_error ∷ [] }, true)))
recovery-panics_example = recovery-panics ops server
