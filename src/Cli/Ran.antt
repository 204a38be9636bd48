-- ===== src/Cli/Ran.antt =====
-- Running the command of a request, `mcuco_run_command` of cli/commands.c: the call of the library
-- that it makes, and the text that it prints.
use mcu_co_sdk.Common.{ℕ, ◌+◌, ◌<◌, ◌≡◌, sym, ap, ◌∙◌, List, Option, some, inl, inr, arith}
use mathlib.Core.Path.{subst}
use mcu_co_sdk.Os.{Os, Port}
use mcu_co_sdk.Os.Ends.{>>=-some}
use mcu_co_sdk.Common.{AreBytes}
use mcu_co_sdk.Protocol.Defs.{protocol_max_command_frame}
use mcu_co_sdk.Protocol.Commands.Request.{Request, InRange}
use mcu_co_sdk.CommandTransport.Decode.{IsReceiveError}
use mcu_co_sdk.Mcuco.{Mcuco}
use mcu_co_sdk.Mcuco.Calls.{call}
use mcu_co_sdk.Mcuco.Answers.{payload-AreBytes}
use mcu_co_sdk.Mcuco.Results.{Called, call-Called}
use mcu_co_sdk.Cli.Words.{McucoArgs}
use mcu_co_sdk.Cli.Table.{Command, args_parse_mcuco, mcuco_run_command, printing}
use mcu_co_sdk.Cli.Runs.{request_of, print_of, mcuco_run_command-call}
use mcu_co_sdk.Cli.Spellings.{words_of, IsWhole}
use mcu_co_sdk.Cli.Typed.{requested, args_parse_mcuco-words_of}
use mcu_co_sdk.Cli.Printed.{Printed, IsRight, text_of, error-IsRight, interpret-IsRight}

module _ (os : Os) (fuel : ℕ) (mcu : Mcuco) (port : Port os mcu.fd) where
  -- The request was called, with 0 in its result before; its status was returned, and a text was
  -- printed that shows its value after a success and is empty after an error.
  pub record Ran (r : Request) (s : os.State) (result : Option ((ℕ × List ℕ) × os.State))
      : Type 0 where
    pub status : ℕ
    pub value : Option ℕ
    pub text : List ℕ
    pub after : os.State
    pub called : call os fuel r (some mcu) (some 0) s ≡ some ((status, value), after)
    pub returns : result ≡ some ((status, text), after)
    pub printed : Printed r status value text

  receive_error-IsRight :
      (r : Request) (status : ℕ) → IsReceiveError status → IsRight r (status, some 0)
  receive_error-IsRight r status bad = error-IsRight r status 0 (ground arith)

  Called-IsRight :
      (r : Request) (s : os.State) {result : Option ((ℕ × Option ℕ) × os.State)}
      → (c : Called os fuel mcu port r 0 s result) → IsRight r (c.status, c.value)
  Called-IsRight r s c = elim c.outcome [
    | inl (junk, ack, payload, n, b, clean, small, made) ↦
        let bytes = payload-AreBytes junk payload ack (subst AreBytes b c.are_bytes) in
        subst (IsRight r) (sym made) (interpret-IsRight r ack payload bytes)
    | inr (bad, same) ↦
        subst (λ v. IsRight r (c.status, v)) (sym same) (receive_error-IsRight r c.status bad)
  ]

  pub printing-Ran :
      (r : Request) (s : os.State)
      → InRange r
      → port.supply s + protocol_max_command_frame < fuel
      → Ran r s (printing (call os fuel r (some mcu) (some 0)) (print_of r) s)
  printing-Ran r s valid enough =
      let c = call-Called os fuel mcu port r 0 s valid enough in
      record {
        status = c.status;
        value = c.value;
        text = text_of r (c.status, c.value);
        after = c.after;
        called = c.returns;
        returns =
            >>=-some (call os fuel r (some mcu) (some 0)) _ s c.after (c.status, c.value) c.returns;
        printed = Called-IsRight r s c;
      }

  -- The words of a request of the protocol, a duty in whole percents, whatever the arguments were
  -- before: with an open port and fuel for a frame and for all that the port can still deliver, the
  -- command that they are parsed to makes that request's call of the library and no other, and
  -- returns its status. After a success it prints a level as "low" or "high", a frequency as digits
  -- that read as it, and a duty as digits, a point and one digit for its tenths; without a value to
  -- show, or after an error, it prints nothing.
  pub mcuco_run_command-Ran :
      (r : Request) (args args' : McucoArgs) (command : Command) (s : os.State)
      → InRange r
      → IsWhole r
      → args_parse_mcuco (words_of r) args ≡ (some command, args')
      → port.supply s + protocol_max_command_frame < fuel
      → Ran r s (mcuco_run_command os fuel (some mcu) (some command) args' s)
  mcuco_run_command-Ran r args args' command s valid whole parsed enough =
      let same : some (request_of command.run args') ≡ some r =
        ap requested (sym parsed) ∙ args_parse_mcuco-words_of r args valid whole in
      subst (Ran r s)
        (sym (
          mcuco_run_command-call os fuel (some mcu) command args' s
          ∙ ap (λ r. printing (call os fuel r (some mcu) (some 0)) (print_of r) s) (some_eq same)))
        (printing-Ran r s valid enough)
    where
      some_eq : {p q : Request} → some p ≡ some q → p ≡ q
      some_eq k = cc
