-- ===== src/Task/Model/Transitions.antt =====
-- The life of an execution (model.go).
use backend_infrastructure_g.Base.{
  ℕ, ◌<◌, ◌≡◌, refl, subst, ◌↔◌, ◌⊎◌, inl, inr, true, false, some, Text, text_eq, text_eq_sound,
  arith,
}
use backend_infrastructure_g.Task.Model.{
  Status, queued, running, succeeded, failed, cancelled, status_text, validate_transition,
  parse_status,
}

abbrev pub IsTerminal : Status → Type 0
IsTerminal s = (s ≡ succeeded) ⊎ (s ≡ failed) ⊎ (s ≡ cancelled)

-- A history: each status is followed by one that `ValidateTransition` accepts.
pub data History : Status → Status → Type 0 where
  here : {s : Status} → History s s
  step : {s t u : Status} → validate_transition s t ≡ true → History t u → History s u

-- How far along a status is.
abbrev pub rank : Status → ℕ
rank queued = 0
rank running = 1
rank _ = 2

rank_top : (t : Status) → ¬ (2 < rank t)
rank_top t h = ground arith

valid-rank :
    (s t : Status)
    → validate_transition s t ≡ true
    → ((s ≡ running) × (t ≡ running)) ⊎ (rank s < rank t)
unfolding validate_transition
valid-rank s t h = ground arith

History-rank : {s t : Status} → History s t → (s ≡ t) ⊎ (rank s < rank t)
History-rank here = inl refl
History-rank (step {s = s} {t = t} h r) = ground (arith, valid-rank s t h, History-rank r)

one_step : (s t : Status) → validate_transition s t ≡ true → History s t
one_step s t h = step h here

rank-History : (s t : Status) → rank s < rank t → History s t
unfolding validate_transition
rank-History queued queued h = absurd (omega arith)
rank-History queued running h = one_step queued running refl
rank-History queued succeeded h = step {t = running} refl (one_step running succeeded refl)
rank-History queued failed h = one_step queued failed refl
rank-History queued cancelled h = one_step queued cancelled refl
rank-History running succeeded h = one_step running succeeded refl
rank-History running failed h = one_step running failed refl
rank-History running cancelled h = one_step running cancelled refl
rank-History running queued h = absurd (omega arith)
rank-History running running h = absurd (omega arith)
rank-History succeeded t h = absurd (rank_top t h)
rank-History failed t h = absurd (rank_top t h)
rank-History cancelled t h = absurd (rank_top t h)

-- A status accepts no transition at all exactly if it is succeeded, failed or cancelled.
pub IsTerminal-iff : (s : Status) → IsTerminal s ↔ ((t : Status) → validate_transition s t ≡ false)
unfolding validate_transition
IsTerminal-iff queued = (λ h. ground arith, λ h. ground (arith, h running))
IsTerminal-iff running = (λ h. ground arith, λ h. ground (arith, h running))
IsTerminal-iff succeeded = (λ h t. ground arith, λ h. inl refl)
IsTerminal-iff failed = (λ h t. ground arith, λ h. inr (inl refl))
IsTerminal-iff cancelled = (λ h t. ground arith, λ h. inr (inr refl))

-- One status can follow another, over any number of accepted transitions, exactly if they are the
-- same or the first comes earlier in the order queued, running, the three terminal statuses.
pub History_iff : (s t : Status) → History s t ↔ ((s ≡ t) ⊎ (rank s < rank t))
History_iff s t = (
  λ h. History-rank h,
  λ r. elim r [ inl e ↦ subst (History s) e here | inr l ↦ rank-History s t l ],
)

parse_status-text : (s : Status) → parse_status (status_text s) ≡ some s
unfolding parse_status text_eq
parse_status-text queued = refl
parse_status-text running = refl
parse_status-text succeeded = refl
parse_status-text failed = refl
parse_status-text cancelled = refl

parse_status_sound :
    (value : Text) (s : Status) → parse_status value ≡ some s → value ≡ status_text s
unfolding parse_status
parse_status_sound value s h = ground (
  arith,
  text_eq_sound value (status_text queued),
  text_eq_sound value (status_text running),
  text_eq_sound value (status_text succeeded),
  text_eq_sound value (status_text failed),
  text_eq_sound value (status_text cancelled),
)

-- A text is accepted as a status exactly if it is the string that the status stands for.
pub parse_status_iff :
    (value : Text) (s : Status) → (parse_status value ≡ some s) ↔ (value ≡ status_text s)
parse_status_iff value s = (parse_status_sound value s, λ e. rw e (parse_status-text s))
