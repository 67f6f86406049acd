-- ===== src/Examples.antt =====
-- Tests of the definitions on concrete inputs, and the theorems of the library at such inputs.
mod Alphabet
mod Messages
mod Hosts
mod Exchanges
mod Stubs
mod Queues
mod Pages
mod Scopes
mod Texts
mod Documents
mod Themes
