-- ===== src/Uart/Trace.antt =====
-- What a port has handed out and taken between two states.
use mcu_co_sdk.Common.{ℕ, zero, suc, ◌+◌, ◌≤◌, ◌<◌, ◌≡◌, refl, sym, ap, ◌∙◌, arith}
use mcu_co_sdk.Common.{List, [], ◌∷◌, ◌++◌, true, length}
use mcu_co_sdk.Common.{length-append, AreBytes}
use mathlib.Core.Path.{subst}
use mathlib.Core.List.{append-nil, append_assoc}
use mcu_co_sdk.Common.Int.{ℤ, neg_ℕ, is_neg}
use mcu_co_sdk.Os.{Polled, Os, Port}
use mcu_co_sdk.Uart.{now_ms}

pub is_neg-neg_ℕ : (n : ℕ) → 0 < n → is_neg (neg_ℕ n) ≡ true
is_neg-neg_ℕ zero h = absurd (omega arith)
is_neg-neg_ℕ (suc n) h = refl

pub AreBytes-append : (xs ys : List ℕ) → AreBytes xs → AreBytes ys → AreBytes (xs ++ ys)
AreBytes-append [] ys p q = q
AreBytes-append (x ∷ xs) ys p q = (p.0, AreBytes-append xs ys p.1 q)

module _ (os : Os) (fd : ℤ) (port : Port os fd) where
  -- From `s` to `s'` the port has handed out `bs` and taken nothing.
  pub record Handed (s s' : os.State) (bs : List ℕ) : Type 0 where
    pub received : port.received s' ≡ port.received s ++ bs
    pub sent : port.sent s' ≡ port.sent s
    pub supply : port.supply s' + length bs ≤ port.supply s
    pub bytes : AreBytes bs

  pub Handed-trans :
      {s t u : os.State} {xs ys : List ℕ} → Handed s t xs → Handed t u ys → Handed s u (xs ++ ys)
  Handed-trans {s} {xs} {ys} p q = record {
    received = q.received ∙ ap (λ t. t ++ ys) p.received ∙ append_assoc (port.received s) xs ys;
    sent = q.sent ∙ p.sent;
    supply = omega (arith, p.supply, q.supply, length-append xs ys);
    bytes = AreBytes-append xs ys p.bytes q.bytes;
  }

  pub Handed-nothing :
      {s s' : os.State}
      → port.received s' ≡ port.received s
      → port.sent s' ≡ port.sent s
      → port.supply s' ≤ port.supply s
      → Handed s s' []
  Handed-nothing p q r = record {
    received = p ∙ sym (append-nil _);
    sent = q;
    supply = omega arith;
    bytes = tt;
  }

  pub Handed-now_ms : (s : os.State) → Handed s (now_ms os s).1 []
  unfolding now_ms
  Handed-now_ms s = Handed-nothing (port.clock_received s) (port.clock_sent s) (port.clock_supply s)

  pub polled : (t : ℤ) (s : os.State) (p : Polled × os.State) → os.poll fd t s ≡ p → Handed s p.1 []
  polled t s p e =
      Handed-nothing (ap (λ c. port.received c.1) (sym e) ∙ port.poll_received t s)
        (ap (λ c. port.sent c.1) (sym e) ∙ port.poll_sent t s)
        (subst (λ c. port.supply c.1 ≤ port.supply s) e (port.poll_supply t s))
