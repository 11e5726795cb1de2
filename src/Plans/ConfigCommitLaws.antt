-- ===== src/Plans/ConfigCommitLaws.antt =====
-- What the commit test lowers, and the order of its steps, for every TCB of the platform.
use sev_certify.Prelude.{
  zero, suc, ℕ, true, false, List, [], ◌∷◌, ok, err, ℤ, pos, negsuc, is_positive, ◌≡◌, ◌≢◌, refl,
  ◌∙◌, ◌⊎◌, inl, inr, Each, Bool-cases,
}
use sev_certify.Plans.ConfigCommit.{nothing_to_lower, TcbValues, lower, before}

pub data Component : Type 0 where
  boot_loader tee snp microcode : Component

abbrev pub component : Component → TcbValues → ℤ
component boot_loader t = t.bl
component tee t = t.tee
component snp t = t.snp
component microcode t = t.ucode

-- The components that are lowered in preference to this one.
abbrev pub preferred : Component → List Component
preferred boot_loader = []
preferred snp = boot_loader ∷ []
preferred tee = boot_loader ∷ snp ∷ []
preferred microcode = boot_loader ∷ snp ∷ tee ∷ []

-- `c` was positive, no preferred component was, and `c` alone is lowered, by one.
pub record LowersAt (c : Component) (t lowered : TcbValues) : Type 0 where
  pub rest : ℕ
  pub was : component c t ≡ pos (suc rest)
  pub now : component c lowered ≡ pos rest
  pub others : (d : Component) → d ≢ c → component d lowered ≡ component d t
  pub first : Each (λ d. is_positive (component d t) ≡ false) (preferred c)

positive : (x : ℤ) → is_positive x ≡ true → (n : ℕ) × (x ≡ pos (suc n)) × (before x ≡ pos n)
positive (pos (suc n)) h = (n, refl, refl)
positive (pos zero) h = absurd (cc h)
positive (negsuc n) h = absurd (cc h)

abbrev with_lowered : Component → TcbValues → TcbValues
with_lowered boot_loader t = record t { bl = before t.bl }
with_lowered tee t = record t { tee = before t.tee }
with_lowered snp t = record t { snp = before t.snp }
with_lowered microcode t = record t { ucode = before t.ucode }

others_kept :
    (c d : Component) (t : TcbValues) → d ≢ c → component d (with_lowered c t) ≡ component d t
others_kept boot_loader boot_loader t n = absurd (n refl)
others_kept boot_loader tee t n = refl
others_kept boot_loader snp t n = refl
others_kept boot_loader microcode t n = refl
others_kept tee boot_loader t n = refl
others_kept tee tee t n = absurd (n refl)
others_kept tee snp t n = refl
others_kept tee microcode t n = refl
others_kept snp boot_loader t n = refl
others_kept snp tee t n = refl
others_kept snp snp t n = absurd (n refl)
others_kept snp microcode t n = refl
others_kept microcode boot_loader t n = refl
others_kept microcode tee t n = refl
others_kept microcode snp t n = refl
others_kept microcode microcode t n = absurd (n refl)

lowered_component :
    (c : Component) (t : TcbValues) → component c (with_lowered c t) ≡ before (component c t)
lowered_component boot_loader t = refl
lowered_component tee t = refl
lowered_component snp t = refl
lowered_component microcode t = refl

with_lowered-LowersAt :
    (c : Component) (t : TcbValues)
    → is_positive (component c t) ≡ true
    → Each (λ d. is_positive (component d t) ≡ false) (preferred c)
    → LowersAt c t (with_lowered c t)
with_lowered-LowersAt c t h first =
    let (n, was, now) = positive (component c t) h in
    record {
      rest = n;
      was = was;
      now = lowered_component c t ∙ now;
      others = λ d. others_kept c d t;
      first = first;
    }

-- What is lowered is the first positive component in the order boot loader, SNP, TEE, microcode, by one,
-- and nothing else changes; the choice fails only if no component is positive.
pub lower-LowersAt :
    (t : TcbValues)
    → ((lowered : TcbValues) × (c : Component) × (lower t ≡ ok lowered) × LowersAt c t lowered)
      ⊎ ((lower t ≡ err nothing_to_lower)
          × Each
              (λ c. is_positive (component c t) ≡ false)
              (boot_loader ∷ snp ∷ tee ∷ microcode ∷ []))
unfolding lower
lower-LowersAt t = elim (Bool-cases (is_positive (component boot_loader t))) [
  | inl e ↦
      inl (
        with_lowered boot_loader t,
        boot_loader,
        rw e refl,
        with_lowered-LowersAt boot_loader t e tt,
      )
  | inr e ↦ elim (Bool-cases (is_positive (component snp t))) [
    | inl e1 ↦
        inl (with_lowered snp t, snp, rw (e, e1) refl, with_lowered-LowersAt snp t e1 (e, tt))
    | inr e1 ↦ elim (Bool-cases (is_positive (component tee t))) [
      | inl e2 ↦ inl (
        with_lowered tee t,
        tee,
        rw (e, e1, e2) refl,
        with_lowered-LowersAt tee t e2 (e, (e1, tt)),
      )
      | inr e2 ↦ elim (Bool-cases (is_positive (component microcode t))) [
        | inl e3 ↦ inl (
          with_lowered microcode t,
          microcode,
          rw (e, e1, e2, e3) refl,
          with_lowered-LowersAt microcode t e3 (e, (e1, (e2, tt))),
        )
        | inr e3 ↦ inr (rw (e, e1, e2, e3) refl, (e, (e1, (e2, (e3, tt)))))
      ]
    ]
  ]
]
