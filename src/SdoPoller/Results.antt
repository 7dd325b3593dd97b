-- ===== src/SdoPoller/Results.antt =====
-- sdo_poller.go: the frames that an attempt listens to, and its result.
use otelcol_receiver_canopen.Prelude.{
  ℕ, ◌≡◌, refl, Bool, true, false, not, ◌||◌, Option, none, some, List, [], ◌∷◌, arith, ◌==◌,
  nat_eq, length, beq_self,
}
use otelcol_receiver_canopen.Prelude.Maps.{Map}
use otelcol_receiver_canopen.Transport.{Frame}
use otelcol_receiver_canopen.Config.Types.{SdoChannelConfig, is_empty}
use otelcol_receiver_canopen.SdoPoller.Poll.{
  ActivePoll, finish, answer_frame, on_response, on_initiate, on_segment,
}
use otelcol_receiver_canopen.SdoObserver.Sender.{IsObject, object_frame}
use otelcol_receiver_canopen.SdoPoller.Upload.{
  answer_all, frame_on, object_of, index_joined, not_short,
}

-- The cases of the `select` of `poll`.
pub data PollCase : Type 0 where
  from_result from_timer from_ctx : PollCase

-- Whether an attempt succeeds whose request was sent or not, by one of the cases; `none` while there
-- is no result.
unfoldable pub poll_result : Bool → PollCase → ActivePoll → Option Bool
poll_result false c p = some false
poll_result true from_result p = p.result
poll_result true from_timer p = some false
poll_result true from_ctx p = some false

module _ (channels : Map ℕ SdoChannelConfig) where
  -- A frame that is not the server's answer leaves the attempt as it is.
  pub foreign_frame :
      (f : Frame) (p : ActivePoll)
      → (f.extended || not (f.id == p.server_cob_id) || is_empty f.payload) ≡ true
      → answer_frame channels f p ≡ (none, p)
  unfolding answer_frame
  foreign_frame f p h = rw h refl

  answer_frame-result :
      (f : Frame) (p : ActivePoll) (b : Bool)
      → p.result ≡ some b
      → (answer_frame channels f p).1.result ≡ some b
  unfolding answer_frame on_response on_initiate on_segment finish
  answer_frame-result f p b h = ground arith

  -- The first result of an attempt stays, whatever frames arrive after it: a later abort, or a
  -- segment with the wrong toggle bit, does not undo a success, nor the reverse.
  pub result_is_final :
      (fs : List Frame) (p : ActivePoll) (b : Bool)
      → p.result ≡ some b
      → poll_result true from_result (answer_all channels fs p).1 ≡ some b
  unfolding answer_all poll_result
  result_is_final [] p b h = h
  result_is_final (f ∷ fs) p b h =
      result_is_final fs (answer_frame channels f p).1 b (answer_frame-result f p b h)

  -- The server's abort of the object, with its abort code.
  abbrev pub abort_frame : ActivePoll → List ℕ → Frame
  abort_frame p code = frame_on p.server_cob_id (object_frame 0x80 (object_of p.object) code)

  abort_answered :
      (p : ActivePoll) (code : List ℕ)
      → IsObject (object_of p.object)
      → answer_frame channels (abort_frame p code) p ≡ (none, finish p false)
  unfolding answer_frame on_response
  abort_answered p code h = rw (not_short (length code)) (
      rw (index_joined p.object h) (
        rw (beq_self p.server_cob_id)
          (rw (beq_self p.object.index) (rw (beq_self p.object.sub_index) refl))))

  -- An abort of the object by the server ends an attempt that has no result yet in failure, at its
  -- start or in the middle of the segments, whatever its toggle bit and whatever frames follow, and
  -- nothing is sent in answer to it.
  pub aborted_attempt_fails :
      (p : ActivePoll) (code : List ℕ) (fs : List Frame)
      → IsObject (object_of p.object)
      → p.result ≡ none
      → ((answer_frame channels (abort_frame p code) p).0 ≡ none)
        × (poll_result true from_result (answer_all channels (abort_frame p code ∷ fs) p).1
            ≡ some false)
  unfolding answer_all finish
  aborted_attempt_fails p code fs h none_yet =
      rw (abort_answered p code h)
        (refl, result_is_final fs (finish p false) false (rw none_yet refl))
