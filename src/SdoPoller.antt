-- ===== src/SdoPoller.antt =====
-- The poller of SDO objects, sdo_poller.go.
pub mod Poll
pub mod Upload
pub mod Results
pub mod Sniffed
pub mod Accepted
pub mod Schedule
pub mod Rounds
