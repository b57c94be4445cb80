-- ===== src/Protocol/Integrity.antt =====
-- Checksums of streamed data: crates/protocol/src/integrity.rs. The hasher is that of the crate
-- `crc32fast`, a parameter; the rates over `f64` are left out.
use rust_p2p_usb.Base.{
  ℕ, ◌+◌, ◌^◌, ◌<◌, ◌≡◌, ◌≢◌, ap, sym, ◌∙◌, ◌⊎◌, inl, inr, Bool, true, false, List, [], ◌∷◌, ◌++◌,
  arith, length, length-append, le_bytes, from_le_bytes, length-le_bytes, from_le_bytes-le_bytes,
  append-split, ◌==◌, ==_iff, if◌then◌else◌,
}
use mathlib.Core.List.{append_assoc}
use native.Mathlib.Decide.{ℕ_discrete}

pub record Hasher : Type 1 where
  pub State : Type 0
  pub new : State
  pub update : State → List ℕ → State
  pub finalize : State → ℕ

-- What the crate documents: data may be fed in parts.
abbrev pub Streams : Hasher → Type 0
Streams h = (s : h.State) (xs ys : List ℕ) → h.update (h.update s xs) ys ≡ h.update s (xs ++ ys)

pub data IntegrityResult : Type 0 where
  valid : IntegrityResult
  checksum_mismatch : (expected computed : ℕ) → IntegrityResult
  sequence_gap : (expected received : ℕ) → IntegrityResult

pub is_valid : IntegrityResult → Bool
is_valid valid = true
is_valid (checksum_mismatch expected computed) = false
is_valid (sequence_gap expected received) = false

pub record IntegrityMetrics : Type 0 where
  pub reports_processed : ℕ
  pub checksum_failures : ℕ
  pub sequence_gaps : ℕ
  pub recovery_attempts : ℕ
  pub successful_recoveries : ℕ

abbrev pub no_reports : IntegrityMetrics
no_reports = record {
  reports_processed = 0;
  checksum_failures = 0;
  sequence_gaps = 0;
  recovery_attempts = 0;
  successful_recoveries = 0;
}

unfoldable pub record_report : IntegrityMetrics → IntegrityMetrics
record_report m = record m { reports_processed = m.reports_processed + 1 }

unfoldable pub record_checksum_failure : IntegrityMetrics → IntegrityMetrics
record_checksum_failure m = record m { checksum_failures = m.checksum_failures + 1 }

unfoldable pub record_gap : IntegrityMetrics → IntegrityMetrics
record_gap m = record m { sequence_gaps = m.sequence_gaps + 1 }

unfoldable pub record_recovery_attempt : Bool → IntegrityMetrics → IntegrityMetrics
record_recovery_attempt success m = record m {
  recovery_attempts = m.recovery_attempts + 1;
  successful_recoveries = if success then m.successful_recoveries + 1 else m.successful_recoveries;
}

module _ (h : Hasher) where
  unfoldable pub compute_checksum : List ℕ → ℕ
  compute_checksum bytes = h.finalize (h.update h.new bytes)

  unfoldable pub verify_checksum : List ℕ → ℕ → Bool
  verify_checksum bytes expected_checksum = compute_checksum bytes == expected_checksum

  unfoldable pub compute_interrupt_checksum : ℕ → ℕ → List ℕ → ℕ → ℕ
  compute_interrupt_checksum sequence endpoint bytes timestamp_us =
      let s1 = h.update h.new (le_bytes 8 sequence) in
      let s2 = h.update s1 (endpoint ∷ []) in
      let s3 = h.update s2 bytes in h.finalize (h.update s3 (le_bytes 8 timestamp_us))

  unfoldable pub verify_interrupt_checksum : ℕ → ℕ → List ℕ → ℕ → ℕ → Bool
  unfolding compute_interrupt_checksum
  verify_interrupt_checksum sequence endpoint bytes timestamp_us expected_checksum =
      compute_interrupt_checksum sequence endpoint bytes timestamp_us == expected_checksum

-- The bytes that the checksum of a report covers.
abbrev pub interrupt_bytes : ℕ → ℕ → List ℕ → ℕ → List ℕ
interrupt_bytes sequence endpoint bytes timestamp_us =
    le_bytes 8 sequence ++ (endpoint ∷ (bytes ++ le_bytes 8 timestamp_us))

compute_interrupt_checksum_lem :
    (h : Hasher) (sequence endpoint : ℕ) (bytes : List ℕ) (timestamp_us : ℕ)
    → Streams h
    → compute_interrupt_checksum h sequence endpoint bytes timestamp_us
      ≡ compute_checksum h (interrupt_bytes sequence endpoint bytes timestamp_us)
unfolding compute_interrupt_checksum compute_checksum
compute_interrupt_checksum_lem h sequence endpoint bytes timestamp_us law =
    ap h.finalize (simp (law, append_assoc))

le_bytes-injective : (n k : ℕ) → n < 2 ^ 64 → k < 2 ^ 64 → le_bytes 8 n ≡ le_bytes 8 k → n ≡ k
le_bytes-injective n k hn hk e =
    sym (from_le_bytes-le_bytes 8 n (omega arith))
    ∙ (ap from_le_bytes e ∙ from_le_bytes-le_bytes 8 k (omega arith))

tail_fields :
    (e : ℕ) (d : List ℕ) (t e' : ℕ) (d' : List ℕ) (t' : ℕ)
    → t < 2 ^ 64
    → t' < 2 ^ 64
    → e ∷ (d ++ le_bytes 8 t) ≡ e' ∷ (d' ++ le_bytes 8 t')
    → (e ≡ e') × (d ≡ d') × (t ≡ t')
tail_fields e d t e' d' t' ht ht' same =
    let rest : d ++ le_bytes 8 t ≡ d' ++ le_bytes 8 t' = cc in
    let parts : (d ≡ d') × (le_bytes 8 t ≡ le_bytes 8 t') =
      append-split d (le_bytes 8 t) d' (le_bytes 8 t')
        (omega (
          arith,
          ap length rest,
          length-append d (le_bytes 8 t),
          length-append d' (le_bytes 8 t'),
          length-le_bytes 8 t,
          length-le_bytes 8 t',
        ))
        rest in
    (cc, parts.0, le_bytes-injective t t' ht ht' parts.1)

-- Two reports with the same covered bytes agree in every field.
interrupt_bytes-fields :
    (q e : ℕ) (d : List ℕ) (t q' e' : ℕ) (d' : List ℕ) (t' : ℕ)
    → q < 2 ^ 64
    → q' < 2 ^ 64
    → t < 2 ^ 64
    → t' < 2 ^ 64
    → interrupt_bytes q e d t ≡ interrupt_bytes q' e' d' t'
    → (q ≡ q') × (e ≡ e') × (d ≡ d') × (t ≡ t')
interrupt_bytes-fields q e d t q' e' d' t' hq hq' ht ht' same =
    let parts : (le_bytes 8 q ≡ le_bytes 8 q')
        × (e ∷ (d ++ le_bytes 8 t) ≡ e' ∷ (d' ++ le_bytes 8 t')) =
      append-split (le_bytes 8 q) _ (le_bytes 8 q') _
        (length-le_bytes 8 q ∙ sym (length-le_bytes 8 q')) same in
    let rest : (e ≡ e') × (d ≡ d') × (t ≡ t') = tail_fields e d t e' d' t' ht ht' parts.1 in
    (le_bytes-injective q q' hq hq' parts.0, rest.0, rest.1, rest.2)

-- Two byte strings that differ and have one checksum.
abbrev pub Collide : Hasher → List ℕ → List ℕ → Type 0
Collide h xs ys = (xs ≢ ys) × (compute_checksum h xs ≡ compute_checksum h ys)

bytes_discrete : Discrete (List ℕ)
bytes_discrete = hlevel ℕ_discrete

-- With a hasher that takes its data in parts: if a report passes the check against the checksum of
-- another, its `u64` sequence and timestamp, endpoint and data are the other's, or the byte
-- strings of the two reports differ and have one checksum.
pub verify_interrupt_checksum-collision :
    (h : Hasher) (q e : ℕ) (d : List ℕ) (t q' e' : ℕ) (d' : List ℕ) (t' : ℕ)
    → Streams h
    → q < 2 ^ 64
    → q' < 2 ^ 64
    → t < 2 ^ 64
    → t' < 2 ^ 64
    → verify_interrupt_checksum h q' e' d' t' (compute_interrupt_checksum h q e d t) ≡ true
    → ((q ≡ q') × (e ≡ e') × (d ≡ d') × (t ≡ t'))
      ⊎ Collide h (interrupt_bytes q e d t) (interrupt_bytes q' e' d' t')
unfolding verify_interrupt_checksum
verify_interrupt_checksum-collision h q e d t q' e' d' t' law hq hq' ht ht' passed =
    elim (bytes_discrete (interrupt_bytes q e d t) (interrupt_bytes q' e' d' t')) [
      | yes same ↦ inl (interrupt_bytes-fields q e d t q' e' d' t' hq hq' ht ht' same)
      | no other ↦ inr (other, sums)
    ]
  where
    sums :
        compute_checksum h (interrupt_bytes q e d t)
        ≡ compute_checksum h (interrupt_bytes q' e' d' t')
    sums =
        sym (compute_interrupt_checksum_lem h q e d t law)
        ∙ (sym ((==_iff _ _).0 passed) ∙ compute_interrupt_checksum_lem h q' e' d' t' law)
