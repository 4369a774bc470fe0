-- ===== src/Sim.antt =====
-- sim/: the event queue, the network and the loop of the simulator.
pub mod Queue
pub mod Network
pub mod Loop
pub mod Turns
pub mod Order
pub mod Sends
pub mod Client
pub mod Calls
pub mod Moves
pub mod Answers
mod Examples
