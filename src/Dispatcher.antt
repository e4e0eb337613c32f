-- ===== src/Dispatcher.antt =====
-- src/dispatcher: the queues of the handlers, their counters, and the sending of messages.
pub mod Metadata
pub mod Queues
pub mod Send
pub mod Consumer
