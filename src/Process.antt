-- ===== src/Process.antt =====
-- source/process: the options of the command line (common/ProcessOptions.cpp), the signals
-- (common/OnSignal.cpp) and the start of the servers (FibpServerProcess.cpp, FibpServerMain.cpp).
pub mod Options
pub mod Signals
pub mod Start
pub mod Registry
pub mod Ports
pub mod Hooks
