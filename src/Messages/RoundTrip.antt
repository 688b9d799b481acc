-- ===== src/Messages/RoundTrip.antt =====
-- Round trips of the six messages of 4_order_book_proj/src/messages.hpp.
pub mod EnterRequest
pub mod CancelRequest
pub mod AcceptResponse
pub mod CancelledResponse
pub mod CancelRejectResponse
pub mod ExecutedResponse
