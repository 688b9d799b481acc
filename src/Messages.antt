-- ===== src/Messages.antt =====
-- 4_order_book_proj/src/messages.hpp and message.cpp: the OUCH messages on the wire.
pub mod Bytes
pub mod EnterRequestView
pub mod EnterRequestBuilder
pub mod CancelRequestView
pub mod CancelRequestBuilder
pub mod AcceptResponseView
pub mod AcceptResponseBuilder
pub mod CancelledResponseView
pub mod CancelledResponseBuilder
pub mod CancelRejectResponseView
pub mod CancelRejectResponseBuilder
pub mod ExecutedResponseView
pub mod ExecutedResponseBuilder
pub mod RoundTrip
pub mod Decode
pub mod Codec
mod Tests
