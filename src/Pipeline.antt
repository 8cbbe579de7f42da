-- ===== src/Pipeline.antt =====
-- The longitudinal pipeline of src/Hipace.cpp: Wait, Notify, NotifyFinish and the loop of Evolve
-- that calls them. Each rank runs whole time steps; a step passes from rank to rank, box by box.
pub mod State
pub mod Finish
pub mod Send
pub mod Receive
pub mod Memory
pub mod Packets
pub mod Handover
pub mod Delivery
pub mod Schedule
