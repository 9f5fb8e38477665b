-- ===== src/Examples/JobController.antt =====
-- A job that grabs images, and the theorems about its answers at concrete queries.
use tinia.Prelude.{ℕ, ◌≡◌, ◌≢◌, refl, true, false, some, [], ◌∷◌, inl, arith}
use tinia.Master.{message_image, message_error}
use tinia.Model.Exposed.{new_model}
use tinia.Model.Errors.{key_not_found}
use tinia.JobController.{
  JobCallbacks, SnapshotQuery, PixelFormat, rgb, rgb_custom_depth, get_scripts, JobController,
  replied, thrown,
}
use tinia.JobController.Snapshot.{required, on_snapshot}
use tinia.JobController.Handle.{handle, on_update_state}
use tinia.JobController.Bounds.{on_snapshot-ragged}
use tinia.Examples.{demo}

abbrev grabber : JobCallbacks demo
grabber = record {
  grab = λ q a b k. (true, required q);
  get_exposed_model_update = λ r n. (n, n);
  on_get_renderlist = λ n s k t. (some n, n);
  update = λ n. (true, 3);
}

abbrev square : PixelFormat → ℕ → SnapshotQuery
square f n = record {
  pixel_format = f;
  width = n;
  height = n;
  depth_w = n;
  depth_h = n;
  session_id = "session";
  keys = "viewer" ∷ [];
}

abbrev idle : JobController
idle = record { update_ongoing = false; failed = false; notifications = 0; scripts = 10 ∷ 20 ∷ [] }

-- An image of 3 x 3 pixels has 27 bytes, which is no multiple of four.
ragged-refused :
    (on_snapshot demo grabber (square rgb 3) 1000 new_model).0 ≡ replied message_error 4
unfolding on_snapshot new_model
ragged-refused = refl

even-sent : (on_snapshot demo grabber (square rgb 2) 1000 new_model).0 ≡ replied message_image 36
unfolding on_snapshot new_model
even-sent = refl

-- With depth, the model must have a viewer at the key.
depth-thrown :
    (on_snapshot demo grabber (square rgb_custom_depth 2) 1000 new_model).0
    ≡ thrown (key_not_found "viewer")
unfolding on_snapshot new_model
depth-thrown = refl

-- A script may be copied past the end of the buffer before its size is looked at: of two scripts of 10
-- and 20 bytes in a buffer with room for 15, the second copy starts at 14 and writes 15 bytes.
overrun :
    (handle demo grabber get_scripts 19 new_model idle).1
    ≡ record { offset = 4; size = 10 } ∷ record { offset = 14; size = 15 } ∷ []
unfolding handle
overrun = refl

-- One notification for an update, whatever the number of its events.
updated-once : (on_update_state demo grabber 0 idle).1 ≡ record idle { notifications = 1 }
unfolding on_update_state
updated-once = refl

on_snapshot-ragged_example :
    (on_snapshot demo grabber (square rgb 3) 1000 new_model).0 ≢ replied message_image 51
on_snapshot-ragged_example =
    on_snapshot-ragged demo grabber (square rgb 3) 1000 51 new_model (inl refl) (ground arith)
      (omega arith)
