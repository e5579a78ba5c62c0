-- ===== src/Tests.antt =====
-- The theorems at concrete inputs, and runs of the functions, by component.
mod Protocol
mod Texts
mod Turning
mod Voting
mod Chatting
mod Naming
mod Administration
mod Connecting
mod Asking
mod Listing
mod Encoding
mod Visiting
mod Queueing
mod Configuring
mod Uploading
mod Guests
