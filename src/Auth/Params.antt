-- ===== src/Auth/Params.antt =====
-- How pkg/auth/digest.go reads the parameters of credentials that a client has written.
use funsip.Base.{
  ℕ, ◌==◌, ◌≡◌, refl, ◌∙◌, sym, ap, Bool, true, false, not, ◌&&◌, ◌||◌, [], ◌∷◌, ◌++◌, arith, All,
}
use mathlib.Core.List.{append_assoc, append-nil}
use funsip.Text.{Text, is_space, trim_space, trim_left, trim_right, keep_left}
use funsip.Text.Words.{Lacks, trim_right-join, keep_left-none}
use funsip.Auth.{params_from, unquoted, is_quote}

-- A byte that neither starts a quoted part nor ends a parameter.
abbrev is_plain : ℕ → Bool
is_plain c = not (c == b'"' || c == b',')

abbrev pub all_plain : Text → Bool
all_plain [] = true
all_plain (c ∷ s) = is_plain c && all_plain s

pub params_from-plain :
    (w k s : Text)
    → all_plain k ≡ true
    → params_from false w (k ++ s) ≡ params_from false (w ++ k) s
params_from-plain w [] s h = ap (λ v. params_from false v s) (sym (append-nil w))
params_from-plain w (c ∷ k) s h =
    let one : params_from false w (c ∷ k ++ s) ≡ params_from false (w ++ c ∷ []) (k ++ s) =
      ground arith in
    let later : all_plain k ≡ true = ground arith in
    one
    ∙ params_from-plain (w ++ c ∷ []) k s later
    ∙ ap (λ v. params_from false v s) (append_assoc w (c ∷ []) k)

pub params_from-quoted :
    (w v s : Text)
    → Lacks b'"' v
    → params_from true w (v ++ b'"' ∷ s) ≡ params_from false (w ++ (v ++ b'"' ∷ [])) s
params_from-quoted w [] s h = refl
params_from-quoted w (c ∷ v) s h =
    let one : params_from true w (c ∷ v ++ b'"' ∷ s)
        ≡ params_from true (w ++ c ∷ []) (v ++ b'"' ∷ s) =
      ground (arith, h.0) in
    one
    ∙ params_from-quoted (w ++ c ∷ []) v s h.1
    ∙ ap (λ u. params_from false u s) (append_assoc w (c ∷ []) (v ++ b'"' ∷ []))

-- A parameter `k"v",`
pub params_from-param :
    (k v s : Text)
    → all_plain k ≡ true
    → Lacks b'"' v
    → params_from false [] (k ++ b'"' ∷ (v ++ b'"' ∷ b',' ∷ s))
      ≡ (k ++ b'"' ∷ (v ++ b'"' ∷ [])) ∷ params_from false [] s
params_from-param k v s plain h =
    params_from-plain [] k (b'"' ∷ (v ++ b'"' ∷ b',' ∷ s)) plain
    ∙ params_from-quoted (k ++ b'"' ∷ []) v (b',' ∷ s) h
    ∙ ap (λ u. u ∷ params_from false [] s) (append_assoc k (b'"' ∷ []) (v ++ b'"' ∷ []))

pub params_from-last :
    (c : ℕ) (k : Text) → all_plain (c ∷ k) ≡ true → params_from false [] (c ∷ k) ≡ (c ∷ k) ∷ []
params_from-last c k h =
    ap (params_from false []) (sym (append-nil (c ∷ k))) ∙ params_from-plain [] (c ∷ k) [] h

module _ (p : ℕ → Bool) where
  pub trim_right-none : (v : Text) → All (λ c. p c ≡ false) v → trim_right p v ≡ v
  trim_right-none [] h = refl
  trim_right-none (c ∷ v) h = ap (keep_left p c) (trim_right-none v h.1) ∙ keep_left-none p c v h.0

  pub trim_right-end :
      (v : Text) (d : ℕ) → p d ≡ true → All (λ c. p c ≡ false) v → trim_right p (v ++ d ∷ []) ≡ v
  trim_right-end [] d e h = rw e refl
  trim_right-end (c ∷ v) d e h =
      ap (keep_left p c) (trim_right-end v d e h.1) ∙ keep_left-none p c v h.0

  pub trim_left-none : (v : Text) → All (λ c. p c ≡ false) v → trim_left p v ≡ v
  trim_left-none [] h = refl
  trim_left-none (c ∷ v) h = rw h.0 refl

pub unquoted-quoted : (v : Text) → Lacks b'"' v → unquoted (b'"' ∷ (v ++ b'"' ∷ [])) ≡ v
unfolding trim_space
unquoted-quoted v h =
    ap (λ u. trim_right is_quote (trim_left is_quote u))
      (trim_right-join is_space (b'"' ∷ v) (b'"' ∷ []) refl refl)
    ∙ inner v h
  where
    inner :
        (u : Text) → Lacks b'"' u → trim_right is_quote (trim_left is_quote (u ++ b'"' ∷ [])) ≡ u
    inner [] l = refl
    inner (c ∷ u) l = rw l.0 (trim_right-end is_quote (c ∷ u) b'"' refl l)
