-- ===== src/ChanServ.antt =====
-- The records of the channel services, services/chanserv.c: channels that are in use (Online), and
-- registered channels with their operators and autokicks (Register).
pub mod Online
pub mod Register
mod Examples
