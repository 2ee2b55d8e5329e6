-- ===== src/Http/RateLimit/Window.antt =====
-- How many calls MemoryRateLimiter allows in a window.
use backend_infrastructure_g.Base.{
  ℕ, suc, ◌+◌, ◌≡◌, refl, sym, ap, subst, ◌∙◌, ◌≤◌, ◌<◌, inl, inr, Bool, false, ◌&&◌, List, [], ◌∷◌,
  ◌++◌, Text, text_eq, text_eq_sound, text_eq_refl, ℤ, pos, ◌+ℤ◌, ◌-ℤ◌, ◌≤ℤ◌, ◌<ℤ◌, ltb_ℤ, leb_ℤ,
  length, length-append, arith, if◌then◌else◌, Bool-cases,
}
use backend_infrastructure_g.Http.RateLimit.{
  Attempts, RateLimitDecision, attempts_of, put, Answer, decided, no_answer, active, decide, allow,
}

-- The instants that lie in the window that begins after an instant.
unfoldable pub in_window : ℤ → ℤ → List ℤ → ℕ
in_window window c [] = 0
in_window window c (t ∷ times) =
    let rest = in_window window c times in
    if ltb_ℤ c t && leb_ℤ t (c +ℤ window) then suc rest else rest

in_window-append :
    (window c : ℤ) (xs ys : List ℤ)
    → in_window window c (xs ++ ys) ≡ in_window window c xs + in_window window c ys
unfolding in_window
in_window-append window c [] ys = omega arith
in_window-append window c (x ∷ xs) ys = ground (arith, in_window-append window c xs ys)

in_window_le : (window c : ℤ) (xs : List ℤ) → in_window window c xs ≤ length xs
unfolding in_window
in_window_le window c [] = omega arith
in_window_le window c (x ∷ xs) = ground (arith, in_window_le window c xs)

length-active : (cutoff : ℤ) (xs : List ℤ) → length (active cutoff xs) ≤ length xs
unfolding active
length-active cutoff [] = omega arith
length-active cutoff (x ∷ xs) = ground (arith, length-active cutoff xs)

-- What is dropped lies in no window that begins at the cutoff or later.
in_window-active :
    (window cutoff c : ℤ) (xs : List ℤ)
    → cutoff ≤ℤ c
    → in_window window c (active cutoff xs) ≡ in_window window c xs
unfolding active in_window
in_window-active window cutoff c [] h = refl
in_window-active window cutoff c (x ∷ xs) h = ground (arith, in_window-active window cutoff c xs h)

window_start : (c now window : ℤ) → ltb_ℤ (c +ℤ window) now ≡ false → now -ℤ window ≤ℤ c
unfolding ◌+ℤ◌ ◌-ℤ◌
window_start c now window h = ground arith

attempts_of-put_self :
    (key : Text) (times : List ℤ) (m : Attempts) → attempts_of key (put key times m) ≡ times
unfolding attempts_of put
attempts_of-put_self key times [] = ground (arith, text_eq_refl key)
attempts_of-put_self key times ((k, old) ∷ m) = ground (arith, attempts_of-put_self key times m)

attempts_of-put_other :
    (key j : Text) (times : List ℤ) (m : Attempts)
    → text_eq key j ≡ false
    → attempts_of j (put key times m) ≡ attempts_of j m
unfolding attempts_of put
attempts_of-put_other key j times [] h = ground arith
attempts_of-put_other key j times ((k, old) ∷ m) h =
    ground (arith, attempts_of-put_other key j times m h, text_eq_sound k key)

-- Whether the limiter let a call through.
unfoldable pub is_allowed : Answer → Bool
is_allowed (decided d) = d.allowed
is_allowed (no_answer e) = false

-- The instants of the calls for a key that a limiter allows, one after another, among calls for any
-- keys.
unfoldable pub granted : Text → ℤ → ℤ → List (Text × ℤ) → Attempts → List ℤ
granted key limit window [] m = []
granted key limit window ((k, now) ∷ calls) m =
    let (m', answer) = allow k limit window now m in
    let later = granted key limit window calls m' in
    if text_eq k key && is_allowed answer then now ∷ later else later

-- The clock does not go back.
abbrev pub Ascends : ℤ → List (Text × ℤ) → Type 0
Ascends t [] = Unit
Ascends t ((k, now) ∷ calls) = (t ≤ℤ now) × Ascends now calls

module _ (key : Text) (limit window : ℤ) where
  granted_late :
      (t c : ℤ) (calls : List (Text × ℤ)) (m : Attempts)
      → Ascends t calls
      → c +ℤ window <ℤ t
      → in_window window c (granted key limit window calls m) ≡ 0
  unfolding granted in_window
  granted_late t c [] m h late = refl
  granted_late t c ((k, now) ∷ calls) m h late = ground (
    arith,
    h.0,
    granted_late now c calls (allow k limit window now m).0 h.1 (ground (arith, h.0)),
  )

module _ (limit window : ℕ) (some_limit : 0 < limit) (some_window : 0 < window) where
  -- The table and the answer of a call.
  allow-decide :
      (key : Text) (now : ℤ) (m : Attempts)
      → let d =
          decide (pos limit) (pos window) now (active (now -ℤ pos window) (attempts_of key m)) in
        allow key (pos limit) (pos window) now m ≡ (put key d.0 m, decided d.1)
  unfolding allow
  allow-decide key now m = ground arith

  -- Room for the instants that a call leaves for its own key, in any window.
  module _ (c : ℤ) where
    Fits : List ℤ → List ℤ → Type 0
    Fits kept later =
        (length kept ≤ limit)
        × (in_window (pos window) c kept + in_window (pos window) c later ≤ limit)

    decide-Fits :
        (now : ℤ) (times later : List ℤ)
        → length times ≤ limit
        → (c +ℤ pos window <ℤ now → in_window (pos window) c later ≡ 0)
        → let d = decide (pos limit) (pos window) now (active (now -ℤ pos window) times) in
          ((length d.0 ≤ limit) → Fits d.0 later)
          → Fits times (if d.1.allowed then now ∷ later else later)
    unfolding decide Fits in_window
    decide-Fits now times later short none_late fits =
        let xs = active (now -ℤ pos window) times in
        elim (Bool-cases (leb_ℤ (pos limit) (pos (length xs)))) [
          | inl full ↦ elim (Bool-cases (ltb_ℤ (c +ℤ pos window) now)) [
            | inl after ↦
                ground (arith, none_late (ground arith), in_window_le (pos window) c times)
            | inr within ↦ ground (
              arith,
              fits (ground (arith, length-active (now -ℤ pos window) times)),
              in_window-active (pos window) (now -ℤ pos window) c times
                  (window_start c now (pos window) within),
            )
          ]
          | inr room ↦ elim (Bool-cases (ltb_ℤ (c +ℤ pos window) now)) [
            | inl after ↦
                ground (arith, none_late (ground arith), in_window_le (pos window) c times)
            | inr within ↦ ground (
              arith,
              fits (ground (arith, length-append xs (now ∷ []))),
              in_window-append (pos window) c xs (now ∷ []),
              in_window-active (pos window) (now -ℤ pos window) c times
                  (window_start c now (pos window) within),
            )
          ]
        ]

    -- What a call decides for its key.
    abbrev decision : Text → ℤ → Attempts → List ℤ × RateLimitDecision
    decision k now m =
        decide (pos limit) (pos window) now (active (now -ℤ pos window) (attempts_of k m))

    granted_cons :
        (key k : Text) (now : ℤ) (calls : List (Text × ℤ)) (m : Attempts)
        → granted key (pos limit) (pos window) ((k, now) ∷ calls) m ≡ (
            let later = granted key (pos limit) (pos window) calls (put k (decision k now m).0 m) in
            if text_eq k key && (decision k now m).1.allowed then now ∷ later else later)
    unfolding granted is_allowed
    granted_cons key k now calls m = rw (allow-decide k now m) refl

    granted-Fits :
        (key : Text) (t : ℤ) (calls : List (Text × ℤ)) (m : Attempts)
        → Ascends t calls
        → length (attempts_of key m) ≤ limit
        → Fits (attempts_of key m) (granted key (pos limit) (pos window) calls m)
    unfolding granted Fits in_window
    granted-Fits key t [] m h short =
        (short, ground (arith, in_window_le (pos window) c (attempts_of key m)))
    granted-Fits key t ((k, now) ∷ calls) m h short =
        let m' = put k (decision k now m).0 m in
        let later = granted key (pos limit) (pos window) calls m' in
        let next = granted-Fits key now calls m' h.1 in
        let late = granted_late key (pos limit) (pos window) now c calls m' h.1 in
        rw (granted_cons key k now calls m) (elim (Bool-cases (text_eq k key)) [
          | inr other ↦
              let kept = attempts_of-put_other k key (decision k now m).0 m other in
              rw other (subst (λ x. Fits x later) kept (next (rw kept short)))
          | inl same ↦
              let mine =
                ap (λ x. attempts_of x m') (sym (text_eq_sound k key same))
                ∙ attempts_of-put_self k (decision k now m).0 m in
              let here = ap (λ x. attempts_of x m) (text_eq_sound k key same) in
              rw same (
                subst (λ x. Fits x (if (decision k now m).1.allowed then now ∷ later else later))
                  here
                  (decide-Fits now (attempts_of k m) later (rw here short) late
                    (λ l. subst (λ x. Fits x later) mine (next (rw mine l)))))
        ])

  -- However calls for any keys follow one another on a clock that does not go back: of the calls for
  -- one key, no more than the limit are allowed in any span of time as long as the window. Limit and
  -- window are positive and the limiter starts empty.
  pub granted-in_window :
      (key : Text) (t : ℤ) (calls : List (Text × ℤ))
      → Ascends t calls
      → (c : ℤ) → in_window (pos window) c (granted key (pos limit) (pos window) calls []) ≤ limit
  unfolding Fits in_window attempts_of
  granted-in_window key t calls h c =
      omega (arith, (granted-Fits c key t calls [] h (omega arith)).1)
