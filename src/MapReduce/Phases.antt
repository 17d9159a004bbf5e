-- ===== src/MapReduce/Phases.antt =====
-- src/mapreduce/master.go, `Sequential`: what each phase of a job leaves in the files.
use mit6824_distribute_syste.Prelude.{
  ℕ, zero, suc, ◌+◌, ◌<◌, ◌≤◌, ◌≡◌, ◌≢◌, refl, sym, ◌∙◌, none, some, List, [], ◌∷◌, arith, length,
  get_elem?, ℕ_discrete,
}
use mathlib.Core.Path.{subst}
use native.Mathlib.Nat.{add-zero}
use mit6824_distribute_syste.Prelude.Text.{Text}
use mit6824_distribute_syste.MapReduce.Common.{
  KeyValue, reduce_name, merge_name, reduce_name-injective, reduce_name-ne-merge_name,
  merge_name-injective,
}
use mit6824_distribute_syste.MapReduce.Files.{Files, open_file, Json, IsJson, encode_all}
use mit6824_distribute_syste.MapReduce.Map.{bucket}
use mit6824_distribute_syste.MapReduce.Partition.{do_map_lem}
use mit6824_distribute_syste.MapReduce.Reducing.{gather, reduce_output, do_reduce_output}
use mit6824_distribute_syste.MapReduce.Sequential.{run_maps, run_reduces}

-- The pairs of the map function for the file at an index.
abbrev pub emitted : (Text → Text → List KeyValue) → (Text → Text) → List Text → ℕ → List KeyValue
emitted map_f contents files q = elim (get_elem? files q) [
  | none ↦ []
  | some f ↦ map_f f (contents f)
]

-- Every input is there, with its contents, and none is an intermediate file.
pub record Inputs (contents : Text → Text) (job : Text) (files : List Text) (fs : Files)
    : Type 0 where
  pub there : (q : ℕ) (f : Text) → get_elem? files q ≡ some f → open_file f fs ≡ some (contents f)
  pub apart : (q : ℕ) (f : Text) → get_elem? files q ≡ some f → (m r : ℕ) → reduce_name job m r ≢ f

module _ (json : Json) (map_f : Text → Text → List KeyValue) (reduce_f : Text → List Text → Text)
    (contents : Text → Text) (job : Text) (n : ℕ) (pos : 0 < n) (small : n < 4294967296) where
  pub record MapsDone (i : ℕ) (files : List Text) (fs fs' : Files) : Type 0 where
    pub made :
        (q r : ℕ)
        → q < length files
        → r < n
        → open_file (reduce_name job (i + q) r) fs'
          ≡ some (encode_all json (bucket n r (emitted map_f contents files q)))
    pub older :
        (m r : ℕ) → m < i → open_file (reduce_name job m r) fs' ≡ open_file (reduce_name job m r) fs

  pub run_maps_lem :
      (i : ℕ) (files : List Text) (fs : Files)
      → Inputs contents job files fs
      → (fs' : Files) × (run_maps json map_f reduce_f job n i files fs ≡ some fs')
        × MapsDone i files fs fs'
  unfolding run_maps
  run_maps_lem i [] fs h =
      (fs, refl, record { made = λ q r lt k. absurd (omega arith); older = λ m r lt. refl })
  run_maps_lem i (f ∷ files) fs h =
      let (fs1, mapped, now) =
        do_map_lem job i json f (contents f) n map_f fs pos small (h.there 0 f refl) in
      let left : Inputs contents job files fs1 = record {
        there = λ q g at. now.others g (h.apart (suc q) g at i) ∙ h.there (suc q) g at;
        apart = λ q g at. h.apart (suc q) g at;
      } in
      let (fs', done, later) = run_maps_lem (i + 1) files fs1 left in
      (
        fs',
        rw (mapped, run_maps) done,
        record {
          made = elim [
            | zero ↦ λ r lt k. rw add-zero (later.older i r (omega arith) ∙ now.buckets r k)
            | suc q ↦ λ r lt k.
                let e : i + suc q ≡ i + 1 + q = omega arith in rw e (later.made q r (omega arith) k)
          ];
          older = λ m r lt.
              later.older m r (omega arith)
              ∙ now.others (reduce_name job m r)
                  (λ r' e. absurd (omega (arith, (reduce_name-injective job i r' m r e).0)));
        },
      )

module _ {json : Json} (codec : IsJson json) (map_f : Text → Text → List KeyValue)
    (reduce_f : Text → List Text → Text) (job : Text) (n_map : ℕ) (b : ℕ → ℕ → List KeyValue) where
  abbrev output : ℕ → List KeyValue
  output r = reduce_output reduce_f (gather (b r) 0 n_map)

  pub record ReducesDone (i left : ℕ) (fs fs' : Files) : Type 0 where
    pub made :
        (r : ℕ)
        → i ≤ r
        → r < i + left
        → open_file (merge_name job r) fs' ≡ some (encode_all json (output r))
    pub older : (r : ℕ) → r < i → open_file (merge_name job r) fs' ≡ open_file (merge_name job r) fs

  pub run_reduces_lem :
      (i left : ℕ) (fs : Files)
      → ((q r : ℕ)
          → q < n_map
          → r < i + left
          → open_file (reduce_name job q r) fs ≡ some (encode_all json (b r q)))
      → (fs' : Files) × (run_reduces json map_f reduce_f job n_map i left fs ≡ some fs')
        × ReducesDone i left fs fs'
  unfolding run_reduces
  run_reduces_lem i zero fs h =
      (fs, refl, record { made = λ r le lt. absurd (omega arith); older = λ r lt. refl })
  run_reduces_lem i (suc left) fs h =
      let (fs1, reduced, written, others) =
        do_reduce_output codec job i n_map reduce_f (b i) fs (λ q lt. h q i lt (omega arith)) in
      let (fs', done, later) = run_reduces_lem (i + 1) left fs1 (λ q r lt k.
        others (reduce_name job q r) (λ e. reduce_name-ne-merge_name job q r i (sym e))
        ∙ h q r lt (omega arith)) in
      (
        fs',
        rw (reduced, run_reduces) done,
        record {
          made = λ r le lt. elim (ℕ_discrete i r) [
            | yes e ↦
                subst (λ q. open_file (merge_name job q) fs' ≡ some (encode_all json (output q))) e
                  (later.older i (omega arith) ∙ written)
            | no ne ↦ later.made r (omega arith) (omega arith)
          ];
          older = λ r lt.
              later.older r (omega arith)
              ∙ others (merge_name job r)
                  (λ e. absurd (omega (arith, merge_name-injective job i r e)));
        },
      )
