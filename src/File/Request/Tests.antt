-- ===== src/File/Request/Tests.antt =====
-- A file 0 and a folder 1 with a request each.
use cofuos.Prelude.{◌==◌, ◌≡◌, refl, true, false, List, [], ◌∷◌}
use cofuos.File.Request.{
  Pool, Step, Transfer, reading, seeking, submitted, taking, finishing, run, read, seek, task,
  take_request, finish, result,
}
use cofuos.File.Request.Places.{IsPlaced, run-IsPlaced, request_round}

abbrev idle : Pool
idle = record {
  file = λ i. record { offset = 0; length = 0; failed = false; command = 0; folder = i == 1 };
  submitting = [];
  requests = [];
  working = [];
  running = true;
  writable = false;
}

abbrev moved : Transfer
moved = record { bytes = 5; place = 12; error = false }

abbrev rounds : List Step
rounds =
    reading 0 5
    ∷ reading 1 5
    ∷ submitted 1
    ∷ submitted 0
    ∷ taking
    ∷ seeking 0 3
    ∷ taking
    ∷ finishing 0 moved
    ∷ finishing 1 moved
    ∷ []

idle-IsPlaced : IsPlaced idle
idle-IsPlaced f = refl

-- The file has been read.
test_read : result 0 (run rounds idle) ≡ 5
unfolding run read task take_request finish result seek
test_read = refl

test_file : ((run rounds idle).file 0).failed ≡ false
unfolding run read task take_request finish seek
test_file = refl

-- A listing fails whatever the worker does.
test_folder : ((run rounds idle).file 1).failed ≡ true
unfolding run read task take_request finish seek
test_folder = refl

run-IsPlaced_example : IsPlaced (run rounds idle)
run-IsPlaced_example = run-IsPlaced rounds idle idle-IsPlaced

request_round_example :
    let q = run (reading 1 5 ∷ submitted 1 ∷ taking ∷ finishing 1 moved ∷ []) idle in
    (result 1 q ≡ 5) × ((q.file 1).failed ≡ true)
request_round_example = request_round 1 5 moved idle refl refl refl
