-- ===== src/Crates/Verdict.antt =====
-- `get_crates_from_output`: what the messages say of each crate.
use scout_audit.Base.{
  ◌≡◌, refl, sym, ◌∙◌, ap, String, Bool, true, false, not, ◌&&◌, Option, none, some, List, [], ◌∷◌,
  ok, err, ok-injective, >>=-eq-ok, ◌>>=◌, any, contains, ◌==◌, eq_iff, Bool-cases, inl, inr, arith,
  if◌then◌else◌,
}
use scout_audit.Base.Map
use scout_audit.Base.Map.{Map, get-insert}
use scout_audit.Json.{Serde}
use scout_audit.Metadata.{Metadata}
use scout_audit.Finding.{Finding, reason, is_compiler_error}
use scout_audit.Graph.{DependencyGraph, new}
use scout_audit.Crates.{
  Package, mark_affected, affected_by, output_loop, get_crates_from_output, package_names,
}

-- a crate that one message failed stays failed
abbrev join_status : Option Bool → Bool → Option Bool
join_status (some false) good = some false
join_status _ good = some good

get-mark_affected :
    (good : Bool) (names : List String) (ret : Map Bool) (name : String)
    → Map.get (mark_affected good names ret) name
      ≡ (if contains names name then join_status (Map.get ret name) good else Map.get ret name)
unfolding mark_affected
get-mark_affected good [] ret name = refl
get-mark_affected good (x ∷ names) ret name = ground (
  arith,
  get-mark_affected good names ret name,
  get-mark_affected good names (Map.insert ret x good) name,
  get-insert ret x good name,
  eq_iff x name,
)

module _ ⦃j : Serde⦄ (hash_order : List String → List String) (metadata : Metadata)
    (package_ids : Map String) where
  -- the crates that a message is about: its own, or those that depend on its package
  pub affected : Finding → List String
  affected f = elim (affected_by hash_order metadata package_ids f none) [ ok a ↦ a.0 | err _ ↦ [] ]

  -- whether a compiler message is about this crate, and whether it is then an error
  pub about : String → Finding → Bool
  unfolding affected
  about name f = reason f == "compiler-message" && contains (affected f) name

  pub fails : String → Finding → Bool
  unfolding about
  fails name f = about name f && is_compiler_error f

  -- a graph that is kept is the graph that would be built
  abbrev IsKept : Option DependencyGraph → Type 0
  IsKept graph = (g : DependencyGraph) → graph ≡ some g → new hash_order metadata ≡ ok g

  -- what a kept graph makes of a message
  affected_by-some :
      (f : Finding) (g : DependencyGraph)
      → new hash_order metadata ≡ ok g
      → (affected_by hash_order metadata package_ids f (some g)
          >>= λ (a : List String × Option DependencyGraph). ok a.0)
        ≡ (affected_by hash_order metadata package_ids f none
            >>= λ (a : List String × Option DependencyGraph). ok a.0)
  unfolding affected_by
  affected_by-some f g k = ground (arith, k)

  IsKept-affected_by :
      (f : Finding) (graph : Option DependencyGraph) {a : List String × Option DependencyGraph}
      → IsKept graph
      → affected_by hash_order metadata package_ids f graph ≡ ok a
      → IsKept a.1
  unfolding affected_by
  IsKept-affected_by f none k h g e = ground arith
  IsKept-affected_by f (some g) k h g' e = ground (arith, k g refl)

  affected-eq :
      (f : Finding) (graph : Option DependencyGraph) {a : List String × Option DependencyGraph}
      → IsKept graph
      → affected_by hash_order metadata package_ids f graph ≡ ok a
      → affected f ≡ a.0
  unfolding affected
  affected-eq f none k h = rw (h, affected)
  affected-eq f (some g) k h = ground (arith, affected_by-some f g (k g refl))

  -- what a crate's status becomes under more messages
  pub verdict : String → Option Bool → List Finding → Option Bool
  unfolding about fails
  verdict name (some false) fs = some false
  verdict name old fs =
      if any (fails name) fs then some false else if any (about name) fs then some true else old

  verdict-none :
      (name : String) (fs : List Finding)
      → verdict name none fs ≡ (
          if any (fails name) fs
          then some false
          else if any (about name) fs
          then some true
          else none)
  unfolding verdict
  verdict-none name fs = refl

  verdict-nil : (name : String) (old : Option Bool) → verdict name old [] ≡ old
  unfolding verdict
  verdict-nil name none = refl
  verdict-nil name (some true) = refl
  verdict-nil name (some false) = refl

  about-message :
      (name : String) (f : Finding)
      → (reason f == "compiler-message") ≡ true
      → about name f ≡ contains (affected f) name
  unfolding about
  about-message name f e = rw (e, about)

  about-other :
      (name : String) (f : Finding)
      → (reason f == "compiler-message") ≡ false
      → about name f ≡ false
  unfolding about
  about-other name f e = rw (e, about)

  -- the status that one message leaves
  abbrev after : String → Option Bool → Finding → Bool → Option Bool
  after name old f hit = if hit then join_status old (not (is_compiler_error f)) else old

  verdict-cons :
      (name : String) (old : Option Bool) (f : Finding) (fs : List Finding)
      → verdict name old (f ∷ fs) ≡ verdict name (after name old f (about name f)) fs
  unfolding verdict
  verdict-cons name none f fs = ground arith
  verdict-cons name (some true) f fs = ground arith
  verdict-cons name (some false) f fs = ground arith

  output_loop-verdict :
      (output : List Finding) (graph : Option DependencyGraph) (ret : Map Bool) {crates : Map Bool}
      (name : String)
      → IsKept graph
      → output_loop hash_order metadata package_ids output graph ret ≡ ok crates
      → Map.get crates name ≡ verdict name (Map.get ret name) output
  unfolding output_loop
  output_loop-verdict [] graph ret name k h =
      ap (λ (m : Map Bool). Map.get m name) (sym (ok-injective h))
      ∙ sym (verdict-nil name (Map.get ret name))
  output_loop-verdict (f ∷ output) graph ret name k h =
      elim (Bool-cases (reason f == "compiler-message")) [
        | inl e ↦
            let (a, here, later) =
              >>=-eq-ok (affected_by hash_order metadata package_ids f graph)
                (λ (a : List String × Option DependencyGraph).
                  output_loop hash_order metadata package_ids output a.1
                    (mark_affected (not (is_compiler_error f)) a.0 ret))
                (rw e at h) in
            let rest =
              output_loop-verdict output a.1 (mark_affected (not (is_compiler_error f)) a.0 ret)
                name (IsKept-affected_by f graph k here) later in
            let hit =
              about-message name f e
              ∙ ap (λ (xs : List String). contains xs name) (affected-eq f graph k here) in
            rest
            ∙ ap (λ (o : Option Bool). verdict name o output)
                (get-mark_affected (not (is_compiler_error f)) a.0 ret name
                  ∙ ap (after name (Map.get ret name) f) (sym hit))
            ∙ sym (verdict-cons name (Map.get ret name) f output)
        | inr e ↦
            output_loop-verdict output graph ret name k (rw e at h)
            ∙ ap (λ (b : Bool). verdict name (after name (Map.get ret name) f b) output)
                (sym (about-other name f e))
            ∙ sym (verdict-cons name (Map.get ret name) f output)
      ]

-- Where `get_crates_from_output` returns a map, a crate that no compiler message is about has no
-- status in it, and of the others those are good that no compiler error is about, whatever the
-- order of the messages and whenever the graph was built.
pub get_crates_from_output-verdict :
    ⦃j : Serde⦄
    → (hash_order : List String → List String) (metadata : Metadata) (output : List Finding)
      (packages : List Package) (name : String) {crates : Map Bool}
    → get_crates_from_output hash_order metadata output packages ≡ ok crates
    → Map.get crates name ≡ (
        if any (fails hash_order metadata (package_names packages) name) output
        then some false
        else if any (about hash_order metadata (package_names packages) name) output
        then some true
        else none)
unfolding get_crates_from_output
get_crates_from_output-verdict hash_order metadata output packages name h =
    output_loop-verdict hash_order metadata (package_names packages) output none [] name (λ g e. cc)
      h
    ∙ verdict-none hash_order metadata (package_names packages) name output
