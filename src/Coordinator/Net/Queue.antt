-- ===== src/Coordinator/Net/Queue.antt =====
-- crates/coordinator/src/net.rs: `scan_jobs_dir`. A look at the jobs directory is the list of its entries
-- in the order of `read_dir`, if that succeeds, with what a read of each gives; the JSON of a descriptor and whether a
-- rename succeeds are parameters, and times are milliseconds.
pub mod Grace
mod Examples
use provework.Prelude.{
  ℕ, zero, suc, ◌-◌, Bytes, Option, none, some, List, [], ◌∷◌, ◌++◌, map, Bool, true, false, ◌&&◌,
  ◌||◌, if◌then◌else◌, leb, ◌==◌, length, drop, text, bytes_eq,
}
use provework.Contentstore.{JobDescriptor}
use provework.Coordinator.Net.Loop.{Scan, broken, nothing, found}

pub record Entry : Type 0 where
  pub path : Bytes
  pub name : Bytes
  pub content : Option Bytes

-- The time at which each path was first seen to fail.
abbrev pub Errors : Type 0
Errors = List (Bytes × ℕ)

abbrev pub write_grace : ℕ
write_grace = 5000

abbrev pub suffix : Bytes
suffix = text ".desc.json"

-- What stands before a suffix, where a text ends with it.
unfoldable pub before_suffix : (name suffix : Bytes) → Option Bytes
before_suffix [] suffix = if bytes_eq [] suffix then some [] else none
before_suffix (c ∷ cs) suffix =
    let rest = before_suffix cs suffix in
    if bytes_eq (c ∷ cs) suffix
    then some []
    else elim rest [ none ↦ none | some stem ↦ some (c ∷ stem) ]

abbrev pub is_descriptor : Bytes → Bool
is_descriptor name = elim (before_suffix name suffix) [ none ↦ false | some stem ↦ true ]

-- `trim_end_matches(".desc.json")`, which takes every one of them off; each takes ten bytes.
unfoldable pub trim_suffixes : ℕ → Bytes → Bytes
unfolding before_suffix
trim_suffixes zero name = name
trim_suffixes (suc fuel) name = elim (before_suffix name suffix) [
  | none ↦ name
  | some stem ↦ trim_suffixes fuel stem
]

-- `split_once('@')`, its second half.
unfoldable pub after_at : Bytes → Option Bytes
after_at [] = none
after_at (c ∷ cs) = let rest = after_at cs in if c == 64 then some cs else rest

-- `split(',')`, the piece before the first comma held back.
unfoldable pub split_commas : Bytes → Bytes → List Bytes
split_commas piece [] = piece ∷ []
split_commas piece (c ∷ cs) =
    let next = piece ∷ split_commas [] cs in
    let more = split_commas (piece ++ c ∷ []) cs in if c == 44 then next else more

-- The bytes of the white space that a text begins with, in UTF-8; 0 where it begins with none.
unfoldable pub space_width : Bytes → ℕ
space_width [] = 0
space_width (b ∷ []) = if (leb 9 b && leb b 13) || b == 32 then 1 else 0
space_width (b ∷ c ∷ []) =
    if (leb 9 b && leb b 13) || b == 32
    then 1
    else if b == 194 && (c == 133 || c == 160)
    then 2
    else 0
space_width (b ∷ c ∷ d ∷ ds) =
    if (leb 9 b && leb b 13) || b == 32
    then 1
    else if b == 194 && (c == 133 || c == 160)
    then 2
    else if (b == 225 && (c == 154 && d == 128))
        || ((b == 226
              && (c == 128 && ((leb 128 d && leb d 138) || (d == 168 || (d == 169 || d == 175)))))
            || ((b == 226 && (c == 129 && d == 159)) || (b == 227 && (c == 128 && d == 128))))
    then 3
    else 0

-- `trim_start`, on as many steps as there are bytes.
unfoldable pub trim_start : ℕ → Bytes → Bytes
unfolding space_width
trim_start zero s = s
trim_start (suc fuel) s = elim (space_width s) [
  | zero ↦ s
  | suc n ↦ trim_start fuel (drop (suc n) s)
]

-- `trim_end`: what is left of a text is dropped where it is all white space.
unfoldable pub trim_end : Bytes → Bytes
unfolding trim_start
trim_end [] = []
trim_end (c ∷ cs) =
    let rest = trim_end cs in
    if bytes_eq (trim_start (length (c ∷ cs)) (c ∷ cs)) [] then [] else c ∷ rest

unfoldable pub trim : Bytes → Bytes
unfolding trim_start trim_end
trim s = trim_end (trim_start (length s) s)

-- The workers that the name of a job's file is for.
unfoldable pub targets_of : (name : Bytes) → Option (List Bytes)
unfolding trim_suffixes after_at split_commas trim
targets_of name = elim (after_at (trim_suffixes (length name) name)) [
  | none ↦ none
  | some ids ↦ some (map trim (split_commas [] ids))
]

unfoldable pub first_seen : Errors → Bytes → Option ℕ
first_seen [] path = none
first_seen ((p, t) ∷ errors) path =
    let rest = first_seen errors path in if bytes_eq p path then some t else rest

unfoldable pub forget : Bytes → Errors → Errors
forget path [] = []
forget path ((p, t) ∷ errors) =
    let rest = forget path errors in if bytes_eq p path then rest else (p, t) ∷ rest

-- How a scan ends: in the error of the directory, of a descriptor or of a rename, with no job, or with
-- one.
pub data Scanned : Type 0 where
  no_dir : Scanned
  unreadable : (path : Bytes) → Scanned
  not_renamed : (path : Bytes) → Scanned
  none_found : Scanned
  queued : JobDescriptor → (targets : Option (List Bytes)) → (path : Bytes) → Scanned

module _ (parse : Bytes → Option JobDescriptor) (rename : Bytes → Bytes → Bool) (now : ℕ) where
  unfoldable pub load : Option Bytes → Option JobDescriptor
  load none = none
  load (some bytes) = parse bytes

  abbrev pub dispatching : Bytes → Bytes
  dispatching path = path ++ text ".dispatching"

  -- A job's file is marked by its new name before the job is handed out.
  unfoldable pub take_job : Entry → JobDescriptor → Scanned
  unfolding targets_of
  take_job e d =
      if rename e.path (dispatching e.path)
      then queued d (targets_of e.name) (dispatching e.path)
      else not_renamed e.path

  -- The loop over the entries.
  unfoldable pub scan_entries : List Entry → Errors → Scanned × Errors
  unfolding load take_job first_seen forget before_suffix
  scan_entries [] errors = (none_found, errors)
  scan_entries (e ∷ es) errors = elim (is_descriptor e.name) [
    | false ↦ scan_entries es errors
    | true ↦ elim (load e.content) [
      | some d ↦ (take_job e d, forget e.path errors)
      | none ↦ elim (first_seen errors e.path) [
        | none ↦ scan_entries es ((e.path, now) ∷ errors)
        | some t ↦ elim (leb write_grace (now - t)) [
          | true ↦ (unreadable e.path, errors)
          | false ↦ scan_entries es errors
        ]
      ]
    ]
  ]

  -- `scan_jobs_dir`, of what `read_dir` gives; none is its failure.
  unfoldable pub scan_jobs_dir : Option (List Entry) → Errors → Scanned × Errors
  unfolding scan_entries
  scan_jobs_dir none errors = (no_dir, errors)
  scan_jobs_dir (some entries) errors = scan_entries entries errors

-- What the event loop sees of a scan.
unfoldable pub as_scan : Scanned → Scan
as_scan no_dir = broken
as_scan (unreadable path) = broken
as_scan (not_renamed path) = broken
as_scan none_found = nothing
as_scan (queued d targets path) = found d targets
