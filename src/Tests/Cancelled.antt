-- ===== src/Tests/Cancelled.antt =====
-- A finding, the warning that an `allow` of its lint is unnecessary, and one on other lines.
use scout_audit.Base.{◌≡◌, refl, true, false, none, some, List, [], ◌∷◌, Memᴰ, ◌↔◌}
use scout_audit.Finding.{Finding, children}
use scout_audit.PostProcessing.{
  PostProcFinding, parse_finding, new_cache, should_include_finding, process,
}
use scout_audit.PostProcessing.Cache.{side, in_file, Adds, mem-new_cache}
use scout_audit.PostProcessing.Cancel.{IsCancelled, should_include_iff, mem-process}
use scout_audit.Tests.Data.{serde, warning, allow_warning}

abbrev findings : List Finding
findings =
    warning "contract" "unsafe_unwrap" 3 4
    ∷ allow_warning "the allow of `unsafe_unwrap` is unnecessary" 4 5
    ∷ warning "contract" "unsafe_unwrap" 8 8
    ∷ []

-- the first two cancel each other
kept : (process ⦃j = serde⦄ findings [] false).0 ≡ warning "contract" "unsafe_unwrap" 8 8 ∷ []
unfolding process children
kept = refl

abbrev parsed : PostProcFinding
parsed = record {
  detector = "unsafe_unwrap";
  file_name = "src/lib.rs";
  span = (3, 4);
  allowed_lint = none;
}

mem-new_cache_example :
    Memᴰ parsed (side false (in_file (new_cache findings).by_file "src/lib.rs"))
    ↔ ((f : Finding) × Memᴰ f findings × Adds "src/lib.rs" false parsed f)
mem-new_cache_example = mem-new_cache findings "src/lib.rs" false parsed

should_include_iff_example :
    (should_include_finding (new_cache findings) (warning "contract" "unsafe_unwrap" 3 4) ≡ true)
    ↔ ((c : PostProcFinding) × (parse_finding (warning "contract" "unsafe_unwrap" 3 4) ≡ some c)
        × ¬ IsCancelled findings c)
should_include_iff_example = should_include_iff findings (warning "contract" "unsafe_unwrap" 3 4)

mem-process_example :
    Memᴰ (warning "contract" "unsafe_unwrap" 8 8) (process ⦃j = serde⦄ findings [] true).0 ↔ (
      Memᴰ (warning "contract" "unsafe_unwrap" 8 8) findings
      × ((c : PostProcFinding) × (parse_finding (warning "contract" "unsafe_unwrap" 8 8) ≡ some c)
          × ¬ IsCancelled findings c))
mem-process_example =
    mem-process ⦃j = serde⦄ findings [] true (warning "contract" "unsafe_unwrap" 8 8)
