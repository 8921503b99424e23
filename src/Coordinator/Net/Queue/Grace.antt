-- ===== src/Coordinator/Net/Queue/Grace.antt =====
-- crates/coordinator/src/net.rs: which descriptor a scan takes, and when a bad one is fatal.
use provework.Prelude.{
  some_injective, ℕ, ◌-◌, ◌≤◌, Bytes, Option, none, some, List, [], ◌∷◌, ◌++◌, Bool, true, false,
  ◌≡◌, ◌⊎◌, refl, ap, sym, arith, leb, leb→le, bytes_eq, All, Bool-cases, Option-cases, inl, inr,
}
use provework.Contentstore.{JobDescriptor}
use provework.Coordinator.Net.Queue.{
  Entry, Errors, write_grace, is_descriptor, targets_of, first_seen, forget, Scanned, unreadable,
  no_dir, not_renamed, none_found, queued, load, dispatching, take_job, scan_entries, scan_jobs_dir,
}

module _ (parse : Bytes → Option JobDescriptor) (rename : Bytes → Bytes → Bool) (now : ℕ) where
  abbrev pub loaded : Option Bytes → Option JobDescriptor
  loaded = load parse rename now

  -- An entry that a scan passes over: it is no descriptor's file, or it does not parse.
  abbrev pub IsPassed : Entry → Type 0
  IsPassed e = (is_descriptor e.name ≡ false) ⊎ (loaded e.content ≡ none)

  -- An entry of a directory with the entries before it, all of which are passed over.
  abbrev pub IsFirst : List Entry → Entry → Type 0
  IsFirst entries e =
      (before : List Entry) × (after : List Entry) × (entries ≡ before ++ e ∷ after)
      × All IsPassed before

  -- What each end of a scan of the entries means.
  abbrev pub EndsScan : List Entry → Errors → Scanned → Type 0
  EndsScan entries errors no_dir = ⊥
  EndsScan entries errors (unreadable path) =
      (e : Entry) × (t : ℕ) × IsFirst entries e
      × (path ≡ e.path)
      × (is_descriptor e.name ≡ true)
      × (loaded e.content ≡ none)
      × (first_seen errors path ≡ some t)
      × (write_grace ≤ now - t)
  EndsScan entries errors (not_renamed path) =
      (e : Entry) × IsFirst entries e
      × (path ≡ e.path)
      × (is_descriptor e.name ≡ true)
      × (rename path (dispatching parse rename now path) ≡ false)
  EndsScan entries errors none_found = All IsPassed entries
  EndsScan entries errors (queued d targets path) =
      (e : Entry) × IsFirst entries e
      × (is_descriptor e.name ≡ true)
      × (loaded e.content ≡ some d)
      × (targets ≡ targets_of e.name)
      × (path ≡ dispatching parse rename now e.path)
      × (rename e.path path ≡ true)

  -- A time of `cur` is one of `errors`, or the present.
  abbrev Extends : Errors → Errors → Type 0
  Extends errors cur =
      (path : Bytes) (t : ℕ)
      → first_seen cur path ≡ some t
      → (first_seen errors path ≡ some t) ⊎ (t ≡ now)

  note-Extends :
      (errors cur : Errors) (p : Bytes) → Extends errors cur → Extends errors ((p, now) ∷ cur)
  unfolding first_seen
  note-Extends errors cur p x path t h = elim (Bool-cases (bytes_eq p path)) [
    | inl same ↦ inr (sym (some_injective _ _ refl (rw (first_seen, same) at h)))
    | inr other ↦ x path t (rw (first_seen, other) at h)
  ]

  later-IsFirst :
      (e0 e : Entry) (es : List Entry) → IsPassed e0 → IsFirst es e → IsFirst (e0 ∷ es) e
  later-IsFirst e0 e es p (before, after, q, all) =
      (e0 ∷ before, after, ap (λ (t : List Entry). e0 ∷ t) q, (p, all))

  -- An entry that is passed over in front changes nothing.
  later :
      (e0 : Entry) (es : List Entry) (errors : Errors) (r : Scanned)
      → IsPassed e0
      → EndsScan es errors r
      → EndsScan (e0 ∷ es) errors r
  later e0 es errors no_dir p h = h
  later e0 es errors (unreadable path) p (e, t, f, q, n, l, s, g) =
      (e, t, later-IsFirst e0 e es p f, q, n, l, s, g)
  later e0 es errors (not_renamed path) p (e, f, q, n, r) = (e, later-IsFirst e0 e es p f, q, n, r)
  later e0 es errors none_found p all = (p, all)
  later e0 es errors (queued d targets path) p (e, f, n, l, q, r, ok) =
      (e, later-IsFirst e0 e es p f, n, l, q, r, ok)

  abbrev scan : List Entry → Errors → Scanned × Errors
  scan = scan_entries parse rename now

  scan-nil : (cur : Errors) → scan [] cur ≡ (none_found, cur)
  unfolding scan_entries
  scan-nil cur = refl

  module _ (e : Entry) (es : List Entry) (cur : Errors) where
    scan-other : is_descriptor e.name ≡ false → scan (e ∷ es) cur ≡ scan es cur
    unfolding scan_entries
    scan-other n = rw (scan_entries, n) refl

    scan-take :
        (d : JobDescriptor)
        → is_descriptor e.name ≡ true
        → loaded e.content ≡ some d
        → scan (e ∷ es) cur ≡ (take_job parse rename now e d, forget e.path cur)
    unfolding scan_entries
    scan-take d n l = rw (scan_entries, n, l) refl

    scan-note :
        is_descriptor e.name ≡ true
        → loaded e.content ≡ none
        → first_seen cur e.path ≡ none
        → scan (e ∷ es) cur ≡ scan es ((e.path, now) ∷ cur)
    unfolding scan_entries
    scan-note n l s = rw (scan_entries, n, l, s) refl

    scan-wait :
        (t : ℕ)
        → is_descriptor e.name ≡ true
        → loaded e.content ≡ none
        → first_seen cur e.path ≡ some t
        → leb write_grace (now - t) ≡ false
        → scan (e ∷ es) cur ≡ scan es cur
    unfolding scan_entries
    scan-wait t n l s g = rw (scan_entries, n, l, s, g) refl

    scan-fatal :
        (t : ℕ)
        → is_descriptor e.name ≡ true
        → loaded e.content ≡ none
        → first_seen cur e.path ≡ some t
        → leb write_grace (now - t) ≡ true
        → scan (e ∷ es) cur ≡ (unreadable e.path, cur)
    unfolding scan_entries
    scan-fatal t n l s g = rw (scan_entries, n, l, s, g) refl

    here : IsFirst (e ∷ es) e
    here = ([], es, refl, tt)

    take_job-EndsScan :
        (errors : Errors) (d : JobDescriptor)
        → is_descriptor e.name ≡ true
        → loaded e.content ≡ some d
        → EndsScan (e ∷ es) errors (take_job parse rename now e d)
    unfolding take_job
    take_job-EndsScan errors d n l =
        elim (Bool-cases (rename e.path (dispatching parse rename now e.path))) [
          | inl ok ↦ rw (take_job, ok) (e, here, n, l, refl, refl, ok)
          | inr bad ↦ rw (take_job, bad) (e, here, refl, n, bad)
        ]

    fatal-EndsScan :
        (errors : Errors) (t : ℕ)
        → Extends errors cur
        → is_descriptor e.name ≡ true
        → loaded e.content ≡ none
        → first_seen cur e.path ≡ some t
        → leb write_grace (now - t) ≡ true
        → EndsScan (e ∷ es) errors (unreadable e.path)
    fatal-EndsScan errors t x n l s g = elim (x e.path t s) [
      | inl old ↦ (e, t, here, refl, n, l, old, leb→le _ _ g)
      | inr present ↦ absurd (just_now t present (leb→le _ _ g))
    ]
      where
        just_now : (a : ℕ) → a ≡ now → write_grace ≤ now - a → ⊥
        just_now a p q = omega arith

  scan-EndsScan :
      (entries : List Entry) (errors cur : Errors)
      → Extends errors cur
      → EndsScan entries errors ((scan entries cur).0)
  scan-EndsScan [] errors cur x = rw (scan-nil cur) tt
  scan-EndsScan (e ∷ es) errors cur x = elim (Bool-cases (is_descriptor e.name)) [
    | inr n ↦
        rw (scan-other e es cur n) (later e es errors _ (inl n) (scan-EndsScan es errors cur x))
    | inl n ↦ elim (Option-cases (loaded e.content)) [
      | inr (d, l) ↦ rw (scan-take e es cur d n l) (take_job-EndsScan e es cur errors d n l)
      | inl l ↦ elim (Option-cases (first_seen cur e.path)) [
        | inl s ↦ rw (scan-note e es cur n l s) (
            later e es errors _ (inr l)
              (scan-EndsScan es errors ((e.path, now) ∷ cur) (note-Extends errors cur e.path x)))
        | inr (t, s) ↦ elim (Bool-cases (leb write_grace (now - t))) [
          | inl g ↦ rw (scan-fatal e es cur t n l s g) (fatal-EndsScan e es cur errors t x n l s g)
          | inr g ↦
              rw (scan-wait e es cur t n l s g)
                (later e es errors _ (inr l) (scan-EndsScan es errors cur x))
        ]
      ]
    ]
  ]

  -- What each end of a scan means; the directory fails if it cannot be read, and only then.
  abbrev pub IsScanned : Option (List Entry) → Errors → Scanned → Type 0
  IsScanned none errors r = r ≡ no_dir
  IsScanned (some entries) errors r = EndsScan entries errors r

  -- A scan of a directory that can be read takes the first descriptor that parses, with the targets of its
  -- name, once its file has been renamed, and finds none only where no descriptor parses; a descriptor
  -- that does not parse ends the scan only if it was first seen to fail at least 5 seconds before, and no
  -- earlier one parses. A directory that cannot be read ends it in an error.
  pub scan_jobs_dir-IsScanned :
      (listing : Option (List Entry)) (errors : Errors)
      → IsScanned listing errors ((scan_jobs_dir parse rename now listing errors).0)
  unfolding scan_jobs_dir
  scan_jobs_dir-IsScanned none errors = refl
  scan_jobs_dir-IsScanned (some entries) errors =
      scan-EndsScan entries errors errors λ path t h. inl h
