-- ===== src/Dispatch.antt =====
-- `DispatchMsgService` of src/DispatchMsgService.h and src/DispatchMsgService.cc: subscriptions,
-- parsing requests into events, and running the handlers on an event.
pub mod Subscribers
pub mod Parse
pub mod Process
pub mod Open
pub mod Close
