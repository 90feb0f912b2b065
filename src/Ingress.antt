-- ===== src/Ingress.antt =====
-- `Ingress` of Ingress/src/ingress.cpp, with `Simulation` of Simulation/src/simulation.cpp in Ingress/Submit.
pub mod Receive
pub mod Submit
pub mod Flow
pub mod Interleaving
pub mod Holding
