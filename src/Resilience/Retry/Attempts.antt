-- ===== src/Resilience/Retry/Attempts.antt =====
-- How often `Retry` runs the operation, and what it returns (retry.go, `Retry`).
use backend_infrastructure_g.Base.{
  ℕ, zero, suc, ◌+◌, ◌≤◌, ◌≡◌, ◌≢◌, ◌-◌, ap, sym, subst, ◌∙◌, ◌⊎◌, inl, inr, Bool, true, false,
  ◌||◌, Option, none, some, ℤ, pos, ◌≤ℤ◌, ◌<ℤ◌, pos_part, arith, Option-cases, Bool-cases,
}
use backend_infrastructure_g.Resilience.Retry.{
  RetryPolicy, invalid_policy, returned, next_backoff, loop, retry, after_error, wait, refuses,
  eq_ℤ,
}

module _ {S E : Type 0} (ctx_err : S → Option E) (operation : S → S × Option E)
    (sleep : ℤ → S → S × Bool) (policy : RetryPolicy E) where
  open policy use {max_attempts, initial_backoff, max_backoff, retry_if}

  abbrev again : ℕ → ℕ → ℤ → S → S × Option E
  again left attempt delay =
      loop ctx_err operation sleep policy left (attempt + 1) (next_backoff delay max_backoff)

  abbrev pub IsPolicy : Type 0
  IsPolicy = (pos 0 <ℤ max_attempts) × (pos 0 ≤ℤ initial_backoff) × (pos 0 ≤ℤ max_backoff)

  -- Why no round follows the one that failed with an error.
  abbrev stops : ℕ → E → Bool
  stops attempt err =
      eq_ℤ (pos attempt) max_attempts || refuses ctx_err operation sleep policy retry_if err

  abbrev waited : ℤ → S → S × Bool
  waited = wait ctx_err operation sleep policy

  -- The ways in which a round can end, each with what the loop then returns.
  data Round (left attempt : ℕ) (delay : ℤ) (s : S) (r : S × Option E) : Type 0 where
    expired : (c : E) → ctx_err s ≡ some c → r ≡ (s, some c) → Round left attempt delay s r
    succeeded :
        ctx_err s ≡ none
        → (operation s).1 ≡ none
        → r ≡ ((operation s).0, none)
        → Round left attempt delay s r
    stopped :
        (e : E)
        → (operation s).1 ≡ some e
        → stops attempt e ≡ true
        → r ≡ ((operation s).0, some e)
        → Round left attempt delay s r
    woken :
        (e : E)
        → (operation s).1 ≡ some e
        → (waited delay (operation s).0).1 ≡ false
        → r ≡ ((waited delay (operation s).0).0, ctx_err (waited delay (operation s).0).0)
        → Round left attempt delay s r
    went_on :
        (e : E)
        → (operation s).1 ≡ some e
        → stops attempt e ≡ false
        → r ≡ again left attempt delay (waited delay (operation s).0).0
        → Round left attempt delay s r

  round :
      (left attempt : ℕ) (delay : ℤ) (s : S)
      → Round left attempt delay s (loop ctx_err operation sleep policy (suc left) attempt delay s)
  unfolding loop after_error
  round left attempt delay s = elim (Option-cases (ctx_err s)) [
    | inr (c, e) ↦ expired c e (ground arith)
    | inl fine ↦ elim (Option-cases (operation s).1) [
      | inl ok ↦ succeeded fine ok (ground arith)
      | inr (e, bad) ↦ elim (Bool-cases (stops attempt e)) [
        | inl stop ↦ stopped e bad stop (ground arith)
        | inr go ↦ elim (Bool-cases (waited delay (operation s).0).1) [
          | inl fired ↦ went_on e bad go (ground arith)
          | inr not_fired ↦ woken e bad not_fired (ground arith)
        ]
      ]
    ]
  ]

  retry-valid :
      (s : S)
      → IsPolicy
      → retry ctx_err operation sleep policy s ≡ (
          let (s', err) =
            loop ctx_err operation sleep policy (pos_part max_attempts) 1 initial_backoff s in
          (s', returned err))
  unfolding retry
  retry-valid s valid = ground arith

  -- `Retry` is the loop, or refuses the policy and does nothing.
  retry-cases :
      (s : S)
      → (retry ctx_err operation sleep policy s ≡ (s, invalid_policy))
        ⊎ (IsPolicy
            × (retry ctx_err operation sleep policy s ≡ (
                let (s', err) =
                  loop ctx_err operation sleep policy (pos_part max_attempts) 1 initial_backoff s in
                (s', returned err))))
  unfolding retry
  retry-cases s = ground arith

  module _ (calls : S → ℕ) (counts : (s : S) → calls (operation s).0 ≡ calls s + 1)
      (sleeps : (d : ℤ) (s : S) → calls (sleep d s).0 ≡ calls s) where
    calls-waited : (d : ℤ) (s : S) → calls (waited d s).0 ≡ calls s
    unfolding wait
    calls-waited d s = ground (arith, sleeps d s)

    calls-loop :
        (left attempt : ℕ) (d : ℤ) (s : S)
        → calls (loop ctx_err operation sleep policy left attempt d s).0 ≤ calls s + left
    unfolding loop
    calls-loop zero attempt d s = omega arith
    calls-loop (suc left) attempt d s =
        let s₁ = (operation s).0 in
        let s₂ = (waited d s₁).0 in
        let rest = calls-loop left (attempt + 1) (next_backoff d max_backoff) s₂ in
        let woke = calls-waited d s₁ in
        let called = counts s in
        elim (round left attempt d s) [
          | expired c x e ↦ ground arith
          | succeeded y x e ↦ ground arith
          | stopped err x y e ↦ ground arith
          | woken err x y e ↦ ground arith
          | went_on err x y e ↦ ground arith
        ]

    -- `Retry` runs the operation at most MaxAttempts times, and not at all if that is negative.
    pub calls-retry :
        (s : S) → calls (retry ctx_err operation sleep policy s).0 ≤ calls s + pos_part max_attempts
    calls-retry s =
        ground (arith, retry-cases s, calls-loop (pos_part max_attempts) 1 initial_backoff s)

    abbrev Exhausts : ℕ → S → (S → E) → S × Option E → Type 0
    Exhausts n s err (s', r) =
        (calls s' ≡ calls s + n)
        × ((t : S) × (operation t ≡ (s', some (err t))) × (r ≡ some (err t)))

    Exhausts-at :
        (err : S → E) (n : ℕ) (s s₁ : S) (r : S × Option E)
        → calls s₁ ≡ calls s + 1
        → Exhausts n s₁ err r
        → Exhausts (suc n) s err r
    Exhausts-at err n s s₁ (s', r) h (c, rest) = (omega arith, rest)

    module _ (err : S → E) (never : (s : S) → ctx_err s ≡ none)
        (fails : (s : S) → (operation s).1 ≡ some (err s))
        (fires : (d : ℤ) (s : S) → (sleep d s).1 ≡ true) (always : retry_if ≡ none) where
      Exhausts-loop :
          (left attempt : ℕ) (d : ℤ) (s : S)
          → pos (attempt + left) ≡ max_attempts
          → Exhausts (suc left) s err (loop ctx_err operation sleep policy (suc left) attempt d s)
      unfolding refuses wait
      Exhausts-loop zero attempt d s m = elim (round zero attempt d s) [
        | expired c x e ↦ ground (arith, never s)
        | succeeded y x e ↦ ground (arith, fails s)
        | woken er x y e ↦ ground (arith, fires d (operation s).0)
        | stopped er x y e ↦
            subst (Exhausts 1 s err) (sym e)
              (counts s, (s, ground (arith, fails s), ground (arith, fails s)))
        | went_on er x y e ↦ ground arith
      ]
      Exhausts-loop (suc left) attempt d s m = elim (round (suc left) attempt d s) [
        | expired c x e ↦ ground (arith, never s)
        | succeeded y x e ↦ ground (arith, fails s)
        | woken er x y e ↦ ground (arith, fires d (operation s).0)
        | stopped er x y e ↦ ground arith
        | went_on er x y e ↦
            let s₁ = (waited d (operation s).0).0 in
            subst (Exhausts (suc (suc left)) s err) (sym e) (
              Exhausts-at err (suc left) s s₁ _
                (omega (arith, counts s, calls-waited d (operation s).0))
                (Exhausts-loop left (attempt + 1) (next_backoff d max_backoff) s₁ (ground arith)))
      ]

      -- If the operation always fails, the context stays alive, the timers fire and RetryIf is nil,
      -- a valid policy has the operation run exactly MaxAttempts times, and the error of the last
      -- run is returned.
      pub retry_exhausts :
          (s : S)
          → IsPolicy
          → let (s', r) = retry ctx_err operation sleep policy s in
            (calls s' ≡ calls s + pos_part max_attempts)
            × ((t : S) × (operation t ≡ (s', some (err t))) × (r ≡ returned (some (err t))))
      retry_exhausts s valid =
          rw (retry-valid s valid) (ran.0, (ran.1.0, ran.1.1, ap returned ran.1.2))
        where
          rounds : ℕ
          rounds = pos_part max_attempts

          ran :
              Exhausts rounds s err (loop ctx_err operation sleep policy rounds 1 initial_backoff s)
          ran =
              subst
                (λ k. Exhausts k s err (loop ctx_err operation sleep policy k 1 initial_backoff s))
                (omega arith) (Exhausts-loop (rounds - 1) 1 initial_backoff s (ground arith))

  loop-nil :
      ((d : ℤ) (s : S) → (sleep d s).1 ≡ false → ctx_err (sleep d s).0 ≢ none)
      → (left attempt : ℕ) (d : ℤ) (s s' : S) → pos (attempt + left) ≡ max_attempts
      → loop ctx_err operation sleep policy (suc left) attempt d s ≡ (s', none)
      → (t : S) × (ctx_err t ≡ none) × (operation t ≡ (s', none))
  unfolding wait
  loop-nil dies zero attempt d s s' m h = elim (round zero attempt d s) [
    | expired c x e ↦ cc
    | succeeded y x e ↦ (s, y, ground arith)
    | woken er x y e ↦ ground (arith, dies d (operation s).0)
    | stopped er x y e ↦ cc
    | went_on er x y e ↦ ground arith
  ]
  loop-nil dies (suc left) attempt d s s' m h = elim (round (suc left) attempt d s) [
    | expired c x e ↦ cc
    | succeeded y x e ↦ (s, y, ground arith)
    | woken er x y e ↦ ground (arith, dies d (operation s).0)
    | stopped er x y e ↦ cc
    | went_on er x y e ↦
        loop-nil dies left (attempt + 1) (next_backoff d max_backoff) (waited d (operation s).0).0
          s' (ground arith) (sym e ∙ h)
  ]

  -- If `Retry` returns nil, the last thing that it did was a run of the operation that returned
  -- nil, begun while the context was alive. The context is taken to have an error whenever it ends
  -- a wait.
  pub retry-nil :
      ((d : ℤ) (s : S) → (sleep d s).1 ≡ false → ctx_err (sleep d s).0 ≢ none)
      → (s s' : S) → retry ctx_err operation sleep policy s ≡ (s', returned none)
      → (t : S) × (ctx_err t ≡ none) × (operation t ≡ (s', none))
  retry-nil dies s s' e = elim (retry-cases s) [
    | inl refused ↦ ground arith
    | inr (valid, runs) ↦
        let positive : pos_part max_attempts ≡ suc (pos_part max_attempts - 1) = omega arith in
        loop-nil dies (pos_part max_attempts - 1) 1 initial_backoff s s' (ground arith)
          (rw (← positive) (ground arith))
  ]
