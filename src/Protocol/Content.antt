-- ===== src/Protocol/Content.antt =====
-- What `handle_overlay_message_impl` of CtProtocolState.cpp and BftProtocolState.cpp finds in a message.
use pddm.Prelude.{ℕ, ◌==◌, if◌then◌else◌, Bool}
use pddm.Messages.Body.{MessageBody}

-- What an OverlayMessage has in it, for a meter.
pub data Content : Type 0 where
  no_payload not_here : Content
  next_layer payload : MessageBody → Content

abbrev content_of : Bool → MessageBody → Content
content_of here MessageBody.null = no_payload
content_of here (MessageBody.overlay q d e f b) = next_layer (MessageBody.overlay q d e f b)
content_of here (MessageBody.path_overlay q d e f p b) =
    next_layer (MessageBody.path_overlay q d e f p b)
content_of here body = if here then payload body else not_here

abbrev pub content : ℕ → MessageBody → Content
content meter (MessageBody.overlay query destination encrypted flood body) =
    content_of (destination == meter) body
content meter (MessageBody.path_overlay query destination encrypted flood path body) =
    content_of (destination == meter) body
content meter _ = no_payload
