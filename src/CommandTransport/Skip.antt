-- ===== src/CommandTransport/Skip.antt =====
-- The loop of `receive_response` that discards what stands before SOF.
use mcu_co_sdk.Common.{ℕ, zero, suc, ◌<◌, ◌≡◌, ◌≢◌, refl, ap, ◌∙◌, ◌⊎◌, inl, inr, arith}
use mcu_co_sdk.Common.{
  List, [], ◌∷◌, ◌++◌, Option, some, true, false, Bool-cases, overwrite, overwrite-nil, length,
}
use mcu_co_sdk.Common.{◌==◌, ◌!=◌, get_or}
use mathlib.Core.Path.{subst}
use mcu_co_sdk.Common.Int.{ℤ}
use mcu_co_sdk.Values.{mcuco_status_ok}
use mcu_co_sdk.Protocol.Defs.{protocol_sof}
use mcu_co_sdk.Os.{Os, Port}
use mcu_co_sdk.Uart.Trace.{Handed, Handed-trans}
use mcu_co_sdk.CommandTransport.{skip_to_sof}
use mcu_co_sdk.CommandTransport.Exact.{IsLinkError, read_exactly-ReadsExactly}

-- No SOF among the bytes.
abbrev pub NoSof : List ℕ → Type 0
NoSof [] = Unit
NoSof (x ∷ xs) = (x ≢ protocol_sof) × NoSof xs

pub single : (xs : List ℕ) → length xs ≡ 1 → xs ≡ get_or xs 0 0 ∷ []
single [] e = absurd (omega arith)
single (x ∷ []) e = refl
single (x ∷ y ∷ xs) e = absurd (omega arith)

module _ (os : Os) (fuel : ℕ) (fd : ℤ) (port : Port os fd) where
  -- The loop ended: at the first SOF, with all before it taken off the port, or with a link error.
  pub record Skips (f : ℕ) (rest : List ℕ) (s : os.State)
      (result : Option ((ℕ × List ℕ) × os.State)) : Type 0 where
    pub status : ℕ
    pub frame : List ℕ
    pub bytes : List ℕ
    pub after : os.State
    pub returns : result ≡ some ((status, frame), after)
    pub handed : Handed os fd port s after bytes
    pub outcome :
        ((junk : List ℕ) × (status ≡ mcuco_status_ok)
          × (frame ≡ protocol_sof ∷ rest)
          × (bytes ≡ junk ++ protocol_sof ∷ [])
          × NoSof junk)
        ⊎ IsLinkError status

  -- A byte that is not SOF is dropped.
  Skips-junk :
      {b f : ℕ} {rest : List ℕ} {s s' : os.State} {result : Option ((ℕ × List ℕ) × os.State)}
      → b ≢ protocol_sof
      → Handed os fd port s s' (b ∷ [])
      → Skips b rest s' result
      → Skips f rest s result
  Skips-junk {b} ne h r = record {
    status = r.status;
    frame = r.frame;
    bytes = b ∷ r.bytes;
    after = r.after;
    returns = r.returns;
    handed = Handed-trans os fd port h r.handed;
    outcome = elim r.outcome [
      | inl (junk, good, frame, all, none_sof) ↦
          inl (b ∷ junk, good, frame, ap (λ t. b ∷ t) all, (ne, none_sof))
      | inr bad ↦ inr bad
    ];
  }

  pub skip_to_sof-Skips :
      (rounds f : ℕ) (rest : List ℕ) (deadline_ms : ℤ) (s : os.State)
      → port.supply s < fuel
      → port.supply s < rounds
      → Skips f rest s (skip_to_sof os fuel fd rounds (f ∷ rest) deadline_ms s)
  unfolding skip_to_sof
  skip_to_sof-Skips zero f rest deadline_ms s enough h = absurd (omega arith)
  skip_to_sof-Skips (suc rounds) f rest deadline_ms s enough h =
      let r =
        read_exactly-ReadsExactly os fuel fd port (f ∷ rest) 0 1 deadline_ms s (omega arith)
          enough in
      elim r.outcome [
        | inr (bad, few) ↦
            let stops : (r.status != mcuco_status_ok) ≡ true = ground arith in
            rw (r.returns, skip_to_sof)
              (rw stops (record {
                status = r.status;
                frame = overwrite (f ∷ rest) 0 r.bytes;
                bytes = r.bytes;
                after = r.after;
                returns = refl;
                handed = r.handed;
                outcome = inr bad;
              }))
        | inl (good, one) ↦
            let b = get_or r.bytes 0 0 in
            let byte : r.bytes ≡ b ∷ [] = single r.bytes one in
            let goes_on : (r.status != mcuco_status_ok) ≡ false = ground arith in
            let written : overwrite (f ∷ rest) 0 r.bytes ≡ b ∷ rest =
              ap (overwrite (f ∷ rest) 0) byte ∙ ap (λ t. b ∷ t) (overwrite-nil rest 0) in
            let handed : Handed os fd port s r.after (b ∷ []) =
              subst (Handed os fd port s r.after) byte r.handed in
            rw (r.returns, skip_to_sof)
              (rw (goes_on, written)
                (elim (Bool-cases (b == protocol_sof)) [
                  | inl found ↦ rw found (record {
                    status = mcuco_status_ok;
                    frame = b ∷ rest;
                    bytes = b ∷ [];
                    after = r.after;
                    returns = refl;
                    handed = handed;
                    outcome =
                        let sof : b ≡ protocol_sof = ground arith in
                        inl ([], refl, ap (λ t. t ∷ rest) sof, ap (λ t. t ∷ []) sof, tt);
                  })
                  | inr other ↦ rw other (
                      Skips-junk (ground arith) handed (
                        skip_to_sof-Skips rounds b rest deadline_ms r.after
                          (omega (arith, handed.supply)) (omega (arith, handed.supply))))
                ]))
      ]
