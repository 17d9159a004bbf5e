-- ===== src/MapReduce/Common.antt =====
-- src/mapreduce/common.go and common_rpc.go: phases, pairs, messages and the names of files.
use mit6824_distribute_syste.Prelude.{ℕ, ◌≡◌, ◌≢◌, arith, [], ◌∷◌, ◌++◌}
use mit6824_distribute_syste.Prelude.Int.{ℤ}
use mit6824_distribute_syste.Prelude.Text.{
  Text, AllDigits, itoa, itoa-injective, itoa-AllDigits, cancel_prefix, split_digits,
}

pub data JobPhase : Type 0 where
  map_phase reduce_phase : JobPhase

pub record KeyValue : Type 0 where
  pub key : Text
  pub value : Text

pub record DoTaskArgs : Type 0 where
  pub job_name : Text
  pub file : Text
  pub phase : JobPhase
  pub task_number : ℕ
  pub num_other_phase : ℕ

pub record ShutdownReply : Type 0 where
  pub ntasks : ℤ

pub record RegisterArgs : Type 0 where
  pub worker : Text

-- "mrtmp."
abbrev pub mrtmp : Text
mrtmp = b'm' ∷ (b'r' ∷ (b't' ∷ (b'm' ∷ (b'p' ∷ (b'.' ∷ [])))))

-- `reduceName`
unfoldable pub reduce_name : Text → ℕ → ℕ → Text
reduce_name job_name map_task reduce_task =
    mrtmp ++ (job_name ++ (b'-' ∷ (itoa map_task ++ (b'-' ∷ itoa reduce_task))))

-- `mergeName`
unfoldable pub merge_name : Text → ℕ → Text
merge_name job_name reduce_task =
    mrtmp ++ (job_name ++ (b'-' ∷ (b'r' ∷ (b'e' ∷ (b's' ∷ (b'-' ∷ itoa reduce_task))))))

-- "mrtmp." + mr.jobName
unfoldable pub output_name : Text → Text
output_name job_name = mrtmp ++ job_name

cancel_job :
    (job xs ys : Text) → mrtmp ++ (job ++ (b'-' ∷ xs)) ≡ mrtmp ++ (job ++ (b'-' ∷ ys)) → xs ≡ ys
cancel_job job xs ys e = cancel_prefix (b'-' ∷ []) xs ys (
    cancel_prefix job (b'-' ∷ xs) (b'-' ∷ ys)
      (cancel_prefix mrtmp (job ++ (b'-' ∷ xs)) (job ++ (b'-' ∷ ys)) e))

-- Within a job, each pair of a map task and a reduce task has a file of its own: two of them have the
-- same file name only if both tasks are the same.
pub reduce_name-injective :
    (job : Text) (m r m' r' : ℕ) → reduce_name job m r ≡ reduce_name job m' r' → (m ≡ m') × (r ≡ r')
unfolding reduce_name
reduce_name-injective job m r m' r' e =
    let tail = cancel_job job (itoa m ++ (b'-' ∷ itoa r)) (itoa m' ++ (b'-' ∷ itoa r')) e in
    let (p, q) =
      split_digits (itoa m) (itoa m') (itoa r) (itoa r') b'-' (itoa-AllDigits m) (itoa-AllDigits m')
        (omega arith) tail in
    (itoa-injective m m' p, itoa-injective r r' q)

-- Digits and a dash do not begin with the letter r.
digits_then_dash : (xs ys zs : Text) → AllDigits xs → xs ++ (b'-' ∷ ys) ≡ b'r' ∷ zs → ⊥
digits_then_dash [] ys zs d e = ground arith
digits_then_dash (x ∷ xs) ys zs d e = ground arith

-- Nor is an intermediate file the output of a reduce task.
pub reduce_name-ne-merge_name : (job : Text) (m r r' : ℕ) → reduce_name job m r ≢ merge_name job r'
unfolding reduce_name merge_name
reduce_name-ne-merge_name job m r r' e =
    let rest = b'e' ∷ (b's' ∷ (b'-' ∷ itoa r')) in
    digits_then_dash (itoa m) (itoa r) rest (itoa-AllDigits m)
      (cancel_job job (itoa m ++ (b'-' ∷ itoa r)) (b'r' ∷ rest) e)

pub merge_name-injective : (job : Text) (r r' : ℕ) → merge_name job r ≡ merge_name job r' → r ≡ r'
unfolding merge_name
merge_name-injective job r r' e =
    let res : Text = b'r' ∷ (b'e' ∷ (b's' ∷ (b'-' ∷ []))) in
    itoa-injective r r'
      (cancel_prefix res (itoa r) (itoa r') (cancel_job job (res ++ itoa r) (res ++ itoa r') e))
