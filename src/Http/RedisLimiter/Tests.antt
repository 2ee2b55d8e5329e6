-- ===== src/Http/RedisLimiter/Tests.antt =====
-- Two calls of one client.
use backend_infrastructure_g.Base.{
  ◌≡◌, refl, none, some, [], ◌∷◌, Text, codes, text_eq, set, pos, ◌+ℤ◌, ◌-ℤ◌, arith, if◌then◌else◌,
}
use backend_infrastructure_g.Http.RateLimit.{active, decide}
use backend_infrastructure_g.Http.RedisLimiter.{Table, live_scores, sliding_window}
use backend_infrastructure_g.Http.RedisLimiter.Memory.{IsAscending, sliding_window-decide}

abbrev key : Text
key = codes "k"

abbrev db : Table
db = λ k.
    if text_eq k key
    then some record { scores = pos 100 ∷ pos 200 ∷ []; expires_at = pos 9000 }
    else none

ascending : IsAscending (pos 300) (live_scores (pos 5) (db key))
unfolding live_scores text_eq
ascending = (omega arith, (omega arith, tt), (omega arith, tt, tt))

sliding_window-decide_example : sliding_window (pos 5) key (pos 300) (pos 150) (pos 1) db ≡ (
    let d =
      decide
        (pos 1)
        (pos 150)
        (pos 300)
        (active (pos 300 -ℤ pos 150) (live_scores (pos 5) (db key))) in
    (set key record { scores = d.0; expires_at = pos 5 +ℤ pos 150 } db, d.1))
sliding_window-decide_example =
    sliding_window-decide (pos 5) (pos 300) (pos 150) (pos 1) key db refl refl (omega arith)
      ascending
