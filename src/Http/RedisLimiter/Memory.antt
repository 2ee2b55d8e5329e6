-- ===== src/Http/RedisLimiter/Memory.antt =====
-- The script decides as MemoryRateLimiter does.
use backend_infrastructure_g.Base.{
  ℕ, ◌+◌, ◌≡◌, refl, sym, ap, ◌∙◌, inl, inr, true, false, List, [], ◌∷◌, ◌++◌, ℤ, pos, ◌+ℤ◌, ◌-ℤ◌,
  ◌≤ℤ◌, ltb_ℤ, leb_ℤ, max_int64, int_laws, +ℤ_parts, -ℤ_parts, length, length-append, All, Text,
  set, arith, Bool-cases,
}
use backend_infrastructure_g.Resilience.Breaker.{sub_time}
use backend_infrastructure_g.Http.RateLimit.{RateLimitDecision, active, decide}
use backend_infrastructure_g.Http.RedisLimiter.{
  Table, live_scores, remove_to, add_score, max_ℤ, count_call, sliding_window,
}

-- The instants of earlier calls, the oldest first, none after `now`.
abbrev pub IsAscending : ℤ → List ℤ → Type 0
IsAscending now [] = Unit
IsAscending now (t ∷ times) = (t ≤ℤ now) × All (λ u. t ≤ℤ u) times × IsAscending now times

-- Where every instant is after the cutoff, none is dropped.
remove_to-All :
    (cutoff t : ℤ) (times : List ℤ)
    → ltb_ℤ cutoff t ≡ true
    → All (λ u. t ≤ℤ u) times
    → remove_to cutoff times ≡ times
unfolding remove_to
remove_to-All cutoff t [] h later = refl
remove_to-All cutoff t (u ∷ times) h later =
    let rest = remove_to-All cutoff t times h later.1 in let next = later.0 in ground arith

remove_to-active :
    (cutoff now : ℤ) (times : List ℤ)
    → IsAscending now times
    → remove_to cutoff times ≡ active cutoff times
unfolding remove_to active
remove_to-active cutoff now [] h = refl
remove_to-active cutoff now (t ∷ times) (_, later, rest) = elim (Bool-cases (ltb_ℤ cutoff t)) [
  | inl kept ↦ rw kept (ap (◌∷◌ t) (remove_to-All cutoff t times kept later))
  | inr dropped ↦ rw dropped (remove_to-active cutoff now times rest)
]

add_score-last :
    (now : ℤ) (times : List ℤ) → IsAscending now times → add_score now times ≡ times ++ now ∷ []
unfolding add_score
add_score-last now [] h = refl
add_score-last now (t ∷ times) (before, _, rest) =
    let appended = add_score-last now times rest in ground arith

active-IsAscending :
    (cutoff now : ℤ) (times : List ℤ)
    → IsAscending now times
    → IsAscending now (active cutoff times)
unfolding active
active-IsAscending cutoff now [] h = tt
active-IsAscending cutoff now (t ∷ times) h = elim (Bool-cases (ltb_ℤ cutoff t)) [
  | inl kept ↦ rw kept h
  | inr dropped ↦ rw dropped (active-IsAscending cutoff now times h.2)
]

-- The first call that is kept is in the window.
active-first :
    (cutoff t : ℤ) (times rest : List ℤ) → active cutoff times ≡ t ∷ rest → ltb_ℤ cutoff t ≡ true
unfolding active
active-first cutoff t [] rest h = absurd (ground arith)
active-first cutoff t (u ∷ times) rest h = elim (Bool-cases (ltb_ℤ cutoff u)) [
  | inl kept ↦ ground arith
  | inr dropped ↦ active-first cutoff t times rest (rw dropped at h)
]

sub_twice : (a : ℤ) (n : ℕ) → a -ℤ pos n -ℤ pos 1 ≡ a -ℤ pos (n + 1)
sub_twice a n = grind int_laws

left_of_window : (window now t : ℤ) → window -ℤ (now -ℤ t) ≡ (t +ℤ window) -ℤ now
left_of_window window now t = grind int_laws

-- The wait is at least 1 and at most the window.
wait_bounds :
    (window now t : ℤ)
    → ltb_ℤ (now -ℤ window) t ≡ true
    → t ≤ℤ now
    → (pos 1 ≤ℤ ((t +ℤ window) -ℤ now)) × (((t +ℤ window) -ℤ now) ≤ℤ window)
wait_bounds window now t h k = (
  ground (arith, -ℤ_parts now window, -ℤ_parts (t +ℤ window) now, +ℤ_parts t window),
  ground (arith, -ℤ_parts now window, -ℤ_parts (t +ℤ window) now, +ℤ_parts t window),
)

retry-sub_time :
    (window now t : ℤ)
    → window ≤ℤ pos max_int64
    → ltb_ℤ (now -ℤ window) t ≡ true
    → t ≤ℤ now
    → max_ℤ (pos 1) (window -ℤ (now -ℤ t)) ≡ sub_time (t +ℤ window) now
unfolding sub_time
retry-sub_time window now t bound h k =
    let (low, high) = wait_bounds window now t h k in
    let same = left_of_window window now t in rw same (ground arith)

remaining-append :
    (limit now : ℤ) (times : List ℤ)
    → limit -ℤ pos (length times) -ℤ pos 1 ≡ limit -ℤ pos (length (times ++ now ∷ []))
remaining-append limit now times =
    sub_twice limit (length times) ∙ ap (λ n. limit -ℤ pos n) (sym (length-append times (now ∷ [])))

-- The call that is let in.
abbrev let_in : ℤ → List ℤ → List ℤ × RateLimitDecision
let_in remaining times =
    (times, record { allowed = true; remaining = remaining; retry_after = pos 0 })

let_in-append :
    (limit now : ℤ) (times : List ℤ)
    → IsAscending now times
    → let_in (limit -ℤ pos (length times) -ℤ pos 1) (add_score now times)
      ≡ let_in (limit -ℤ pos (length (times ++ now ∷ []))) (times ++ now ∷ [])
let_in-append limit now times ascends =
    ap (let_in (limit -ℤ pos (length times) -ℤ pos 1)) (add_score-last now times ascends)
    ∙ ap (λ r. let_in r (times ++ now ∷ [])) (remaining-append limit now times)

count_call-decide :
    (limit window now : ℤ) (times : List ℤ)
    → ltb_ℤ (pos 0) limit ≡ true
    → window ≤ℤ pos max_int64
    → IsAscending now times
    → ((t : ℤ) (rest : List ℤ) → times ≡ t ∷ rest → ltb_ℤ (now -ℤ window) t ≡ true)
    → count_call limit window now times ≡ decide limit window now times
unfolding count_call decide
count_call-decide limit window now [] some_limit bound ascends recent =
    let room : leb_ℤ limit (pos 0) ≡ false = ground (arith, some_limit) in
    rw room (let_in-append limit now [] tt)
count_call-decide limit window now (t ∷ times) some_limit bound ascends recent =
    elim (Bool-cases (leb_ℤ limit (pos (length (t ∷ times))))) [
      | inl full ↦ rw full (
          ap (λ r. (t ∷ times, record { allowed = false; remaining = pos 0; retry_after = r }))
            (retry-sub_time window now t bound (recent t times refl) ascends.0))
      | inr room ↦ rw room (let_in-append limit now (t ∷ times) ascends)
    ]

-- On a key whose calls came in the order of their instants, none after `now`, the script decides as
-- MemoryRateLimiter does on the same instants: whether the call is allowed, how many remain and how
-- long to wait, in milliseconds, and it keeps the same instants until a window has passed. The limit
-- and the window are positive.
pub sliding_window-decide :
    (clock now window limit : ℤ) (key : Text) (db : Table)
    → ltb_ℤ (pos 0) limit ≡ true
    → ltb_ℤ (pos 0) window ≡ true
    → window ≤ℤ pos max_int64
    → IsAscending now (live_scores clock (db key))
    → sliding_window clock key now window limit db ≡ (
        let d = decide limit window now (active (now -ℤ window) (live_scores clock (db key))) in
        (set key record { scores = d.0; expires_at = clock +ℤ window } db, d.1))
unfolding sliding_window
sliding_window-decide clock now window limit key db some_limit some_window bound ascends =
    let lasting : leb_ℤ window (pos 0) ≡ false = ground (arith, some_window) in
    rw lasting (
      ap (λ r. (set key record { scores = r.0; expires_at = clock +ℤ window } db, r.1))
        (ap (count_call limit window now) (remove_to-active (now -ℤ window) now scores ascends)
          ∙ count_call-decide limit window now (active (now -ℤ window) scores) some_limit bound
              (active-IsAscending (now -ℤ window) now scores ascends)
              (λ t rest. active-first (now -ℤ window) t scores rest)))
  where
    scores : List ℤ
    scores = live_scores clock (db key)
