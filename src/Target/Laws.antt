-- ===== src/Target/Laws.antt =====
-- ssh/pkg/target/target.go: what NewTarget and SplitSSHID return, on every input.
use mini_shellhub.Prelude.{
  Text, ◌∷◌, ◌++◌, ◌≡◌, ◌↔◌, refl, inl, inr, false, ok, err, ◌⊎◌, ◌>>=◌, arith, contains,
  contains_middle, cut-cases, cut-append, split_n,
}
use mini_shellhub.Target.{TargetError, split_target, Target, not_sshid, new_target, split_sshid}

-- NewTarget accepts a text exactly when it splits at its first '@' into the target's two parts.
pub new_target-ok_iff :
    (s : Text) (t : Target)
    → (new_target s ≡ ok t)
      ↔ ((s ≡ t.username ++ b'@' ∷ t.target_data) × (contains t.username b'@' ≡ false))
unfolding new_target split_n
new_target-ok_iff s t = (there, back)
  where
    there :
        new_target s ≡ ok t
        → (s ≡ t.username ++ b'@' ∷ t.target_data) × (contains t.username b'@' ≡ false)
    there h = elim (cut-cases s b'@') [
      | inl (n, f) ↦ ground arith
      | inr (a, b, p, q, f) ↦ ground arith
    ]

    back :
        (s ≡ t.username ++ b'@' ∷ t.target_data) × (contains t.username b'@' ≡ false)
        → new_target s ≡ ok t
    back h = ground (arith, cut-append t.username t.target_data b'@')

-- SplitSSHID fails only with ErrNotSSHID, exactly on data without a dot; otherwise it returns the
-- parts around the first dot, byte for byte.
pub split_sshid-cases :
    (t : Target)
    → (split_sshid t ≡ err not_sshid) × (contains t.target_data b'.' ≡ false)
      ⊎ ((namespace : Text) × (hostname : Text) × (split_sshid t ≡ ok (namespace, hostname))
          × (t.target_data ≡ namespace ++ b'.' ∷ hostname)
          × (contains namespace b'.' ≡ false))
unfolding split_sshid split_n
split_sshid-cases t = elim (cut-cases t.target_data b'.') [
  | inl (n, f) ↦ inl (ground arith, f)
  | inr (a, b, p, q, f) ↦ inr (a, b, ground (arith, contains_middle a b b'.'), q, f)
]

-- A login name that is put together as user@namespace.hostname is taken apart again.
pub new_target-split_sshid :
    (username namespace hostname : Text)
    → contains username b'@' ≡ false
    → contains namespace b'.' ≡ false
    → (new_target (username ++ b'@' ∷ (namespace ++ b'.' ∷ hostname)) >>= split_sshid)
      ≡ ok (namespace, hostname)
unfolding new_target split_sshid split_n
new_target-split_sshid u n h p q =
    ground (arith, cut-append u (n ++ b'.' ∷ h) b'@', cut-append n h b'.', contains_middle n h b'.')

-- NewTarget fails, with ErrSplitTarget, exactly on a text without '@'.
pub new_target-err_iff :
    (s : Text) (e : TargetError)
    → (new_target s ≡ err e) ↔ ((e ≡ split_target) × (contains s b'@' ≡ false))
unfolding new_target split_n
new_target-err_iff s e = elim (cut-cases s b'@') [
  | inl (n, f) ↦ (λ h. ground arith, λ h. ground arith)
  | inr (a, b, p, q, f) ↦ (λ h. ground arith, λ h. ground (arith, contains_middle a b b'@'))
]

pub new_target-no_at : (s : Text) → contains s b'@' ≡ false → new_target s ≡ err split_target
new_target-no_at s h = (new_target-err_iff s split_target).1 (refl, h)
