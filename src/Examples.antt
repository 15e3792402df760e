-- ===== src/Examples.antt =====
-- The properties at concrete inputs.
mod Codec
mod World
mod Data
mod Consents
mod Boxes
mod Rows
mod Tokens
mod Pages
mod Access
mod Network
