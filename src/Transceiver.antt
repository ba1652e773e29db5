-- ===== src/Transceiver.antt =====
-- include/uwb/transceiver/DW3000Controller.hpp and src/transceiver/DW3000Controller.cpp: the
-- controller of the radio over the vendor's driver. The driver and the pins are a parameter,
-- `Platform`, and the controller keeps the trace of the calls that it made.
pub mod Platform
pub mod Phy
pub mod StsKeys
pub mod Arming
pub mod Reading
pub mod Events
pub mod Uses
