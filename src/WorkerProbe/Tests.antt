-- ===== src/WorkerProbe/Tests.antt =====
-- The theorems of the probe at concrete inputs.
use sacrysty.Json.{Value, boolean, integer, object, Fields, end, field, lookup}
use sacrysty.Prelude.{
  Bool, List, false, ◌+◌, true, ◌≡◌, refl, some, none, [], ◌∷◌, ◌++◌, Bytes, codes, length, arith,
  pos, str_eq,
}
use sacrysty.ProcessGroups.{Posix, Popen, leader_waited, fails, esrch, gone, sent, has_exited}
use sacrysty.ProcessGroups.Ownership.{IsDisciplined}
use sacrysty.ProcessGroups.Absence.{IsAbsent}
use sacrysty.WorkerProbe.Base64.{b64decode, b64encode, char_of, sextet}
use sacrysty.WorkerProbe.Stanza.{stanza, read_stanza, write_stanza, write_lines, readline}
use sacrysty.WorkerProbe.Stanza.RoundTrip.{read_stanza-write_stanza}
use sacrysty.WorkerProbe.Phase.Dialogue.{stanzas, Dialogue}
use sacrysty.WorkerProbe.Phase.Premises.{read_phase-Dialogue}
use sacrysty.WorkerProbe.Phase.{Trace, read_phase, fixture_ok, take_stanza}
use sacrysty.WorkerProbe.Cleanup.{cleanup_group}
use sacrysty.WorkerProbe.Capture.{
  out, err, Block, Poll, first_capture, take_block, take_blocks, finished, finish,
}
use sacrysty.WorkerProbe.Capture.Bounds.{Keeps, take_blocks-Keeps}
use sacrysty.WorkerProbe.Capture.Finishing.{IsWhole, finish-IsWhole}
use sacrysty.WorkerProbe.Cleanup.Signals.{cleanup_group-IsAbsent, cleanup_group-undisciplined}

read_stanza-write_stanza_example :
    read_stanza
      (record { rest = write_stanza (codes "error") (codes "no") ++ codes "-> "; total = 7 })
    ≡ (
      stanza (codes "error") [] 2,
      record { rest = codes "-> "; total = 7 + length (write_stanza (codes "error") (codes "no")) },
    )
unfolding write_stanza write_lines b64encode char_of
read_stanza-write_stanza_example =
    read_stanza-write_stanza (codes "error") (codes "no") (codes "-> ") 7 refl (omega arith)
      (omega arith, (omega arith, tt)) (omega arith)

-- What a client sends in the first phase.
abbrev client : Bytes
client =
    codes
      "-> add-identity AGE-PLUGIN-TEST-10Q32NLXM\n\n-> wrap-file-key\nYQ\n-> extension-labels\n\n-> done\n\n"

abbrev good_trace : Trace
good_trace = record {
  argv = true;
  identity = true;
  wrap = true;
  extension = true;
  done = true;
  expected = true;
  premises = true;
}

client-read : read_phase true (record { rest = client; total = 0 }) ≡ some good_trace
unfolding read_phase take_stanza str_eq read_stanza b64decode sextet readline
client-read = refl

abbrev saved : Bool → Value → Fields
saved premises wrap = field (codes "argv") (boolean true) (
    field (codes "identity") (boolean true) (
      field (codes "wrap") wrap (
        field (codes "extension") (boolean true) (
          field (codes "done") (boolean true) (
            field (codes "expected") (boolean true)
              (field (codes "premises") (boolean premises) end))))))

-- What `client` says.
read_phase-Dialogue_example :
    (true ≡ true) × Dialogue 1 1 1 (stanzas 20 (record { rest = client; total = 0 }))
read_phase-Dialogue_example =
    read_phase-Dialogue true (record { rest = client; total = 0 }) good_trace client-read refl

-- A trace with a member that is no boolean, and one without a member.
fixture_cases :
    (fixture_ok (object (saved true (boolean true))) ≡ true)
    × (fixture_ok (object (saved true (integer (pos 1)))) ≡ false)
    × (fixture_ok (object (field (codes "premises") (boolean true) end)) ≡ false)
unfolding fixture_ok lookup str_eq
fixture_cases = (refl, refl, refl)

abbrev no_group : Posix
no_group = record {
  on_killpg = λ t n. fails esrch;
  on_waitid = λ t. has_exited;
  on_wait = λ t seconds. gone (pos 0);
  on_kill = λ t. sent;
  monotonic = length;
}

abbrev started : Popen
started = record { returncode = none; trace = [] }

cleanup_group-true : (cleanup_group no_group started).0 ≡ true
unfolding cleanup_group
cleanup_group-true = refl

cleanup_group-IsAbsent_example : IsAbsent (cleanup_group no_group started).1.trace
cleanup_group-IsAbsent_example = cleanup_group-IsAbsent no_group started cleanup_group-true

-- A child that was reaped by `finish`.
abbrev reaped : Popen
reaped = record { returncode = some (pos 0); trace = leader_waited 0 (gone (pos 0)) ∷ [] }

cleanup_group-undisciplined_example : ¬ (IsDisciplined (cleanup_group no_group reaped).1.trace)
cleanup_group-undisciplined_example = cleanup_group-undisciplined no_group reaped refl

abbrev blocks : List Block
blocks =
    record { key = out; bytes = codes "ab" }
    ∷ record { key = err; bytes = codes "c" }
    ∷ record { key = out; bytes = codes "d" }
    ∷ []

take_blocks-Keeps_example : Keeps (codes "abd") (codes "c") (take_blocks blocks first_capture)
take_blocks-Keeps_example = take_blocks-Keeps blocks

abbrev polls : List Poll
polls =
    record { blocks = blocks; returncode = none; now = 1 }
    ∷ record { blocks = []; returncode = some (pos 0); now = 2 }
    ∷ []

finish-bounded :
    (finish no_group 9 polls [] [] false started first_capture).0
    ≡ finished true (some (pos 0)) (codes "abd") (codes "c")
unfolding finish take_block
finish-bounded = refl

finish-IsWhole_example :
    IsWhole
      (some (pos 0))
      (codes "abd")
      (codes "c")
      (finish no_group 9 polls [] [] false started first_capture).1
finish-IsWhole_example =
    finish-IsWhole no_group 9 polls [] [] false started (some (pos 0)) (codes "abd") (codes "c")
      finish-bounded
