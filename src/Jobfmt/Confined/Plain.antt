-- ===== src/Jobfmt/Confined/Plain.antt =====
-- crates/jobfmt/src/lib.rs: what the names are that `confined_name` lets pass.
use provework.Prelude.{
  ℕ, Bytes, List, [], ◌∷◌, ◌++◌, Bool, true, false, ◌≡◌, ◌≢◌, refl, sym, ◌∙◌, arith, ◌==◌, ==_iff,
  any, bytes_eq, bytes_eq_iff, text, Bool-cases, &&_split, inl, inr, append_assoc,
}
use provework.Jobfmt.Confined.{
  slash, backslash, Component, normal, pieces, later_components, components, is_relative,
  one_normal, confined_name,
}

-- A text of slashes and of slashes with a dot behind, which a path may end with.
pub data IsIdle : Bytes → Type 0 where
  idle_end : IsIdle []
  idle_slash : {t : Bytes} → IsIdle t → IsIdle (47 ∷ t)
  idle_dot : {t : Bytes} → IsIdle t → IsIdle (47 ∷ 46 ∷ t)

-- A piece that is more than a dot at its end, whatever follows.
abbrev IsBusy : Bytes → Type 0
IsBusy [] = ⊥
IsBusy (x ∷ []) = (x == 46) ≡ false
IsBusy (x ∷ y ∷ r) = Unit

grow-IsBusy : (acc : Bytes) (c : ℕ) → IsBusy acc → IsBusy (acc ++ c ∷ [])
grow-IsBusy [] c b = elim b [ ]
grow-IsBusy (x ∷ []) c b = tt
grow-IsBusy (x ∷ y ∷ r) c b = tt

pieces-slash :
    (acc : Bytes) (c : ℕ) (cs : Bytes)
    → (c == slash) ≡ true
    → pieces acc (c ∷ cs) ≡ acc ∷ pieces [] cs
unfolding pieces
pieces-slash acc c cs e = rw (pieces, e) refl

pieces-more :
    (acc : Bytes) (c : ℕ) (cs : Bytes)
    → (c == slash) ≡ false
    → pieces acc (c ∷ cs) ≡ pieces (acc ++ c ∷ []) cs
unfolding pieces
pieces-more acc c cs e = rw (pieces, e) refl

pieces-nil : (acc : Bytes) → pieces acc [] ≡ acc ∷ []
unfolding pieces
pieces-nil acc = refl

busy-apart : (p : Bytes) → IsBusy p → (bytes_eq p [] ≡ false) × (bytes_eq p (text ".") ≡ false)
busy-apart [] b = elim b [ ]
busy-apart (x ∷ []) b = (refl, rw b refl)
busy-apart (x ∷ y ∷ r) b = (refl, ground arith)

-- The components with a busy piece in front are not none.
busy-later : (p : Bytes) (ps : List Bytes) → IsBusy p → later_components (p ∷ ps) ≢ []
unfolding later_components
busy-later p ps b h = elim (Bool-cases (bytes_eq p (text ".."))) [
  | inl up ↦ cc (rw (later_components, (busy-apart p b).0, (busy-apart p b).1, up) at h)
  | inr other ↦ cc (rw (later_components, (busy-apart p b).0, (busy-apart p b).1, other) at h)
]

busy-pieces : (acc cs : Bytes) → IsBusy acc → later_components (pieces acc cs) ≢ []
busy-pieces acc [] b h = busy-later acc [] b (rw (pieces-nil acc) at h)
busy-pieces acc (c ∷ cs) b h = elim (Bool-cases (c == slash)) [
  | inl e ↦ busy-later acc (pieces [] cs) b (rw (pieces-slash acc c cs e) at h)
  | inr e ↦ busy-pieces (acc ++ c ∷ []) cs (grow-IsBusy acc c b) (rw (pieces-more acc c cs e) at h)
]

abbrev dot_if : Bool → Bytes
dot_if false = []
dot_if true = 46 ∷ []

later-dot_if : (d : Bool) (ps : List Bytes) → later_components (dot_if d ∷ ps) ≡ later_components ps
unfolding later_components
later-dot_if false ps = refl
later-dot_if true ps = refl

IsIdle-dot_if : (d : Bool) {t : Bytes} → IsIdle t → IsIdle (47 ∷ dot_if d ++ t)
IsIdle-dot_if false i = idle_slash i
IsIdle-dot_if true i = idle_dot i

-- What stands behind a slash without a component is idle.
IsIdle-tail :
    (d : Bool) (cs : Bytes)
    → later_components (pieces (dot_if d) cs) ≡ []
    → IsIdle (47 ∷ dot_if d ++ cs)
IsIdle-tail d [] h = IsIdle-dot_if d idle_end
IsIdle-tail d (c ∷ cs) h = elim (Bool-cases (c == slash)) [
  | inl e ↦
      let rest =
        IsIdle-tail false cs
          (sym (later-dot_if d (pieces [] cs)) ∙ (rw (pieces-slash (dot_if d) c cs e) at h)) in
      IsIdle-dot_if d (rw ((==_iff c slash).0 e) rest)
  | inr e ↦ more (λ g. IsIdle-tail true cs g) d e (rw (pieces-more (dot_if d) c cs e) at h)
]
  where
    more :
        (later_components (pieces (46 ∷ []) cs) ≡ [] → IsIdle (47 ∷ 46 ∷ cs))
        → (d : Bool) → (c == slash) ≡ false
        → later_components (pieces (dot_if d ++ c ∷ []) cs) ≡ []
        → IsIdle (47 ∷ dot_if d ++ c ∷ cs)
    more dotted true e h = absurd (busy-pieces (46 ∷ c ∷ []) cs tt h)
    more dotted false e h = elim (Bool-cases (c == 46)) [
      | inl is_dot ↦ rw ((==_iff c 46).0 is_dot) (dotted (rw ((==_iff c 46).0 is_dot) at h))
      | inr other ↦ absurd (busy-pieces (c ∷ []) cs other h)
    ]

only-normal : (p : Bytes) (l : List Component) → one_normal (normal p ∷ l) ≡ true → l ≡ []
only-normal p [] h = refl
only-normal p (x ∷ l) h = cc

-- A first piece that is not empty is the one component, and the pieces behind it give none.
head-name :
    (p : Bytes) (ps : List Bytes)
    → bytes_eq p [] ≡ false
    → one_normal (components (p ∷ ps)) ≡ true
    → (bytes_eq p (text ".") ≡ false)
      × (bytes_eq p (text "..") ≡ false)
      × (later_components ps ≡ [])
unfolding components later_components
head-name p ps n h = elim (Bool-cases (bytes_eq p (text "."))) [
  | inl dot ↦ absurd (cc (rw (components, dot) at h))
  | inr other ↦ elim (Bool-cases (bytes_eq p (text ".."))) [
    | inl up ↦ absurd (cc (rw (components, other, later_components, n, up) at h))
    | inr name ↦ (
      other,
      name,
      only-normal p (later_components ps) (rw (components, other, later_components, n, name) at h),
    )
  ]
]

-- A plain name: one component that stays in its directory, without a separator in it, and what may end a
-- path behind it.
pub record IsPlain (name : Bytes) : Type 0 where
  pub base : Bytes
  pub tail : Bytes
  pub parts : name ≡ base ++ tail
  pub no_slash : any (λ c. c == slash) base ≡ false
  pub no_backslash : any (λ c. c == backslash) name ≡ false
  pub not_empty : base ≢ []
  pub not_dot : base ≢ text "."
  pub not_up : base ≢ text ".."
  pub idle : IsIdle tail

not-equal : (a b : Bytes) → bytes_eq a b ≡ false → a ≢ b
not-equal a b e h = cc (e, (bytes_eq_iff a b).1 h)

-- A first piece and what is left of the text behind it.
abbrev Split : Bytes → Type 0
Split name =
    (base : Bytes) × (tail : Bytes) × (name ≡ base ++ tail)
    × (any (λ c. c == slash) base ≡ false)
    × (base ≢ [])
    × (base ≢ text ".")
    × (base ≢ text "..")
    × IsIdle tail

any-append_last :
    (acc : Bytes) (c : ℕ)
    → any (λ x. x == slash) acc ≡ false
    → (c == slash) ≡ false
    → any (λ x. x == slash) (acc ++ c ∷ []) ≡ false
any-append_last [] c a e = rw e refl
any-append_last (x ∷ acc) c a e = ground (arith, any-append_last acc c)

not_relative : (c : ℕ) (cs : Bytes) → is_relative (c ∷ cs) ≡ true → (c == slash) ≡ true → ⊥
unfolding is_relative
not_relative c cs r e = cc (rw (is_relative, e) at r)

no_component : one_normal (components ([] ∷ [])) ≡ false
unfolding components later_components
no_component = refl

pieces-Split :
    (acc cs : Bytes)
    → any (λ c. c == slash) acc ≡ false
    → is_relative (acc ++ cs) ≡ true
    → one_normal (components (pieces acc cs)) ≡ true
    → Split (acc ++ cs)
pieces-Split [] [] a r h = absurd (cc (no_component, rw (pieces-nil []) at h))
pieces-Split (x ∷ acc) [] a r h =
    let (dot, up, none) = head-name (x ∷ acc) [] refl (rw (pieces-nil (x ∷ acc)) at h) in
    (x ∷ acc, [], refl, a, not-equal _ _ refl, not-equal _ _ dot, not-equal _ _ up, idle_end)
pieces-Split acc (c ∷ cs) a r h = elim (Bool-cases (c == slash)) [
  | inr e ↦ rw (← append_assoc acc (c ∷ []) cs) (
      pieces-Split (acc ++ c ∷ []) cs (any-append_last acc c a e)
        (rw (append_assoc acc (c ∷ []) cs) r) (rw (pieces-more acc c cs e) at h))
  | inl e ↦ cut acc a r e (rw (pieces-slash acc c cs e) at h)
]
  where
    cut :
        (acc : Bytes)
        → any (λ x. x == slash) acc ≡ false
        → is_relative (acc ++ c ∷ cs) ≡ true
        → (c == slash) ≡ true
        → one_normal (components (acc ∷ pieces [] cs)) ≡ true
        → Split (acc ++ c ∷ cs)
    cut [] a r e h = absurd (not_relative c cs r e)
    cut (x ∷ acc) a r e h =
        let (dot, up, rest) = head-name (x ∷ acc) (pieces [] cs) refl h in
        (
          x ∷ acc,
          c ∷ cs,
          refl,
          a,
          not-equal _ _ refl,
          not-equal _ _ dot,
          not-equal _ _ up,
          rw ((==_iff c slash).0 e) (IsIdle-tail false cs rest),
        )

-- A name that `confined_name` lets pass is plain.
pub confined_name-IsPlain : (name : Bytes) → confined_name name ≡ true → IsPlain name
unfolding confined_name
confined_name-IsPlain name h = elim (Bool-cases (any (λ c. c == backslash) name)) [
  | inl bad ↦ absurd (cc (rw (confined_name, bad) at h))
  | inr good ↦
      let (r, one) = &&_split _ _ (rw (confined_name, good) at h) in
      let (base, tail, parts, s, n, d, u, idle) = pieces-Split [] name refl r one in
      record {
        base = base;
        tail = tail;
        parts = parts;
        no_slash = s;
        no_backslash = good;
        not_empty = n;
        not_dot = d;
        not_up = u;
        idle = idle;
      }
]
