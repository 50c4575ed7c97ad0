-- ===== src/Examples.antt =====
-- Runs of the model on concrete inputs, by the part of the program they are about.
mod Signals
mod Timeframes
mod Strategies
mod Times
mod Trades
mod Dicts
mod Managers
mod Params
mod Passes
mod Candles
mod References
mod Orders
mod Tasks
