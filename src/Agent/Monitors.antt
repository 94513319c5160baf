-- ===== src/Agent/Monitors.antt =====
-- agent/monitors: the processes, the network connections and the removable devices of a machine.
pub mod Processes
pub mod Network
pub mod Usb
