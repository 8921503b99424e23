-- ===== src/Coordinator/Net/Queue/Examples.antt =====
-- A jobs directory with a bad descriptor and a good one.
use provework.Prelude.{
  Bytes, Option, none, some, List, [], ◌∷◌, true, ◌≡◌, refl, text, bytes_eq, if◌then◌else◌,
}
use provework.Contentstore.{JobDescriptor}
use provework.Coordinator.Net.Queue.{Entry, Errors, unreadable, queued, scan_entries, scan_jobs_dir}
use provework.Coordinator.Net.Queue.Grace.{IsScanned, scan_jobs_dir-IsScanned}

abbrev descriptor : JobDescriptor
descriptor = record { job_id = text "j"; manifest = []; elf = []; input = [] }

abbrev parse_ok : Bytes → Option JobDescriptor
parse_ok bs = if bytes_eq bs (text "ok") then some descriptor else none

abbrev entries : List Entry
entries =
    record { path = text "q/x.desc.json"; name = text "x.desc.json"; content = some [] }
    ∷ record {
      path = text "q/j.desc.json";
      name = text "j@ann, bob.desc.json";
      content = some (text "ok");
    }
    ∷ []

abbrev seen : Errors
seen = (text "q/x.desc.json", 1000) ∷ []

-- Within five seconds the good one is taken, and afterwards the bad one ends the scan.
scans :
    ((scan_jobs_dir parse_ok (λ p q. true) 5999 (some entries) seen).0
      ≡ queued descriptor (some (text "ann" ∷ text "bob" ∷ [])) (text "q/j.desc.json.dispatching"))
    × ((scan_jobs_dir parse_ok (λ p q. true) 6000 (some entries) seen).0
        ≡ unreadable (text "q/x.desc.json"))
unfolding scan_jobs_dir scan_entries
scans = (refl, refl)

scan_jobs_dir-IsScanned_example :
    IsScanned parse_ok
      (λ p q. true)
      6000
      (some entries)
      seen
      ((scan_jobs_dir parse_ok (λ p q. true) 6000 (some entries) seen).0)
scan_jobs_dir-IsScanned_example =
    scan_jobs_dir-IsScanned parse_ok (λ p q. true) 6000 (some entries) seen
