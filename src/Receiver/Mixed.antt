-- ===== src/Receiver/Mixed.antt =====
-- receiver.go: where the stages of `dispatchLoop` emit points of different kinds under one name.
use otelcol_receiver_canopen.Prelude.{◌≡◌, Option, some, List}
use otelcol_receiver_canopen.Receiver.Dispatch.{Library}
use otelcol_receiver_canopen.Transport.{Frame}
use otelcol_receiver_canopen.Sniffer.Fields.{done}
use otelcol_receiver_canopen.Emit.Types.{Emitted}
use otelcol_receiver_canopen.Emit.Kinds.{HasMixed}
use otelcol_receiver_canopen.Sniffer.Types.{Sniffer}
use otelcol_receiver_canopen.Sniffer.Dispatch.{handle_frame}
use otelcol_receiver_canopen.RawPoller.Attempts.{Poller, Claim, claim_frame}
use otelcol_receiver_canopen.SdoPoller.Poll.{ActivePoll, answer_frame}
use otelcol_receiver_canopen.Receiver.Dispatch.{SdoPolling, Receiver, builders_of, add_metrics}

-- The outputs of a stage do not go together with those that are pending: with them there are two
-- points of one resource's key and one name, of different kinds.
abbrev pub AddsMixed : List Emitted → Receiver → Type 0
AddsMixed es r = HasMixed (add_metrics es r.metrics_builder)

module _ (ops : Library) where
  -- The outputs that the sniffer has for the frame are such ones.
  abbrev pub SniffMixed : Frame → Receiver → Type 0
  SniffMixed f r =
      (es : List Emitted) × (s : Sniffer) × (handle_frame ops.floats (builders_of r.cfg) f r.sniff
        ≡ done (es, s))
      × AddsMixed es r

  -- The poll that is under way answers the frame with one whose outputs are such ones.
  abbrev pub PollMixed : Option SdoPolling → Frame → Receiver → Type 0
  PollMixed p f r =
      (q : SdoPolling) × (a : ActivePoll) × (g : Frame) × (p ≡ some q)
      × (q.active ≡ some a)
      × ((answer_frame q.channels f a).0 ≡ some g)
      × SniffMixed g r

  -- The raw poller claims the frame, and its outputs for it are such ones.
  abbrev pub RawMixed : Option Poller → Frame → Receiver → Type 0
  RawMixed p f r =
      (q : Poller) × (c : Claim) × (p ≡ some q)
      × (claim_frame ops.floats (builders_of r.cfg) r.cfg.interface q f ≡ done c)
      × AddsMixed c.emitted r
