-- ===== src/Tests/Sessions.antt =====
-- Sessions between two small parties.
use ferry.Prelude.{
  ℕ, ◌≡◌, refl, true, false, Option, none, some, List, [], ◌∷◌, Bytes, bytes_eq, Result, ok, err,
  arith,
}
use ferry.Prelude.Maps.{lookup}
use ferry.Store.Format.{BlobId}
use ferry.Proto.Error.{ProtoError}
use ferry.Proto.Session.{Message, Peer, Process, done, send, recv, verdict, is_known}
use ferry.Proto.Session.Run.{Link, advance, Step, by_left, by_right, Run}
use ferry.Proto.Session.Meet.{quiet}
use ferry.Proto.Engine.{
  initiator, responder, FolderState, find_folder, find_outcome, folder_sentinel, no_manifest,
}
use ferry.Proto.Engine.Offers.Adverts.{IsIndexed}
use ferry.Proto.Engine.Offers.{effective_manifest}
use ferry.Proto.Engine.Offers.Talk.{Party}
use ferry.Proto.Engine.Offers.Parties.{IsParty, IsOffered}
use ferry.Proto.Engine.Offers.Exchange.{exchanges, Exchanged, exchange-Exchanged}
use ferry.Proto.Engine.Stages.{stage_needed, stage_from, needs, pull_needed, same_role, stage_empty}
use ferry.Proto.Engine.Stages.Agree.{stage_needed-agree, TellsEach}
use ferry.Tests.Data.{all_bytes, all_bytes_sound, id_of, folder_of}
use ferry.Tests.Indexes.{rows, rows-IsEntry}

abbrev v1_peer : Peer
v1_peer = record { max = 256; flags = 1 }

abbrev ping : Message
ping = record { msg_type = 11; payload = 0 ∷ [] }

-- The left party sends one frame, the right one counts what it gets.
abbrev Pair : Type 0
Pair = Link ℕ ℕ ℕ ℕ

abbrev counts : Result ProtoError Message → Process ℕ ℕ
counts (ok m) = done 1 (ok 1)
counts (err e) = done 0 (err e)

abbrev start : Pair
start = quiet (send ping (done 0 (ok 0))) (recv counts)

abbrev halfway : Pair
halfway = record { left = done 0 (ok 0); right = recv counts; to_left = []; to_right = ping ∷ [] }

abbrev finish : Pair
finish = quiet (done 0 (ok 0)) (done 1 (ok 1))

first-Step : Step v1_peer v1_peer start halfway
unfolding advance
first-Step = by_left _ refl refl

second-Step : Step v1_peer v1_peer halfway finish
unfolding advance verdict is_known
second-Step = by_right _ refl refl

whole-Run : Run v1_peer v1_peer 2 start finish
unfolding Run
whole-Run = (halfway, first-Step, (finish, second-Step, refl))

abbrev folder : ℕ → Option BlobId → FolderState ℕ
folder n m = record { folder_id = folder_of n; store = n; current_manifest = m }

-- Every store has the same rows.
abbrev party : List (FolderState ℕ) → Party ℕ ℕ
party folders = record {
  index_entries = λ h w. ok rows;
  fuel = 262_150;
  folders = folders;
  outcomes = [];
}

abbrev alice : Party ℕ ℕ
alice = party (folder 1 (some (id_of 5)) ∷ folder 2 none ∷ [])

abbrev bob : Party ℕ ℕ
bob = party (folder 1 (some (id_of 7)) ∷ folder 2 (some (id_of 6)) ∷ [])

-- A side that configures a folder more than `alice`.
abbrev carol : Party ℕ ℕ
carol = party (folder 3 (some (id_of 8)) ∷ folder 2 none ∷ [])

rows-IsIndexed : IsIndexed rows
rows-IsIndexed = record { each = rows-IsEntry; few = omega arith }

with_manifest :
    (fs : List (FolderState ℕ)) (n m : ℕ)
    → bytes_eq (folder_of n) folder_sentinel ≡ false
    → bytes_eq (id_of m) no_manifest ≡ false
    → all_bytes (folder_of n) ≡ true
    → all_bytes (id_of m) ≡ true
    → IsOffered (party fs) 0 (folder n (some (id_of m)))
with_manifest fs n m h k a b = record {
  id_array = (refl, all_bytes_sound (folder_of n) a);
  not_sentinel = h;
  manifest = ((refl, all_bytes_sound (id_of m) b), k);
  indexed = (rows, refl, rows-IsIndexed);
}

without_manifest : (fs : List (FolderState ℕ)) → IsOffered (party fs) 0 (folder 2 none)
unfolding bytes_eq
without_manifest fs = record {
  id_array = (refl, all_bytes_sound (folder_of 2) refl);
  not_sentinel = refl;
  manifest = tt;
  indexed = (rows, refl, rows-IsIndexed);
}

alice-IsParty : IsParty alice 0
unfolding bytes_eq
alice-IsParty = record {
  offered =
      (with_manifest alice.folders 1 5 refl refl refl refl, (without_manifest alice.folders, tt));
  manifests = tt;
  room = omega arith;
}

bob-IsParty : IsParty bob 0
unfolding bytes_eq
bob-IsParty = record {
  offered = (
    with_manifest bob.folders 1 7 refl refl refl refl,
    (with_manifest bob.folders 2 6 refl refl refl refl, tt),
  );
  manifests = tt;
  room = omega arith;
}

carol-IsParty : IsParty carol 0
unfolding bytes_eq
carol-IsParty = record {
  offered =
      (with_manifest carol.folders 3 8 refl refl refl refl, (without_manifest carol.folders, tt));
  manifests = tt;
  room = omega arith;
}

exchange-Exchanged_example :
    Exchanged v1_peer v1_peer alice carol true 0 0
      (quiet (exchanges alice true initiator 0) (exchanges carol true responder 0))
exchange-Exchanged_example =
    exchange-Exchanged v1_peer v1_peer alice carol true 0 0 alice-IsParty carol-IsParty
      (omega arith) (omega arith)

meeting :
    Exchanged v1_peer v1_peer alice bob false 0 0
      (quiet (exchanges alice false initiator 0) (exchanges bob false responder 0))
meeting =
    exchange-Exchanged v1_peer v1_peer alice bob false 0 0 alice-IsParty bob-IsParty (omega arith)
      (omega arith)

alice-TellsEach : TellsEach alice
unfolding effective_manifest find_folder find_outcome bytes_eq
alice-TellsEach = (refl, (refl, tt))

bob-TellsEach : TellsEach bob
unfolding effective_manifest find_folder find_outcome bytes_eq
bob-TellsEach = (refl, (refl, tt))

stage_needed-agree_example :
    stage_empty (stage_needed alice.folders meeting.learned_x.peer_folders responder initiator)
    ≡ stage_empty (stage_needed bob.folders meeting.learned_y.peer_folders responder responder)
stage_needed-agree_example =
    stage_needed-agree alice bob meeting.learned_x.peer_folders meeting.learned_y.peer_folders
      responder meeting.of_y meeting.of_x alice-TellsEach bob-TellsEach (λ id. refl)

-- The folder 3 is configured by the responder alone. The initiator has it without a manifest of its
-- own, and finds no stage of its own to run; the responder expects one to serve.
abbrev known_alice : List (Bytes × Option BlobId)
known_alice = (folder_of 1, none) ∷ (folder_of 2, none) ∷ (folder_of 3, some (id_of 8)) ∷ []

abbrev known_carol : List (Bytes × Option BlobId)
known_carol = (folder_of 1, some (id_of 5)) ∷ (folder_of 2, none) ∷ (folder_of 3, none) ∷ []

runs_no_stage : stage_needed alice.folders known_alice initiator initiator ≡ []
unfolding stage_needed stage_from lookup bytes_eq needs same_role pull_needed
runs_no_stage = refl

serves_a_stage : stage_needed carol.folders known_carol initiator responder ≡ 0 ∷ []
unfolding stage_needed stage_from lookup bytes_eq needs same_role pull_needed
serves_a_stage = refl
