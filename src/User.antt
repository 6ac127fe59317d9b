-- ===== src/User.antt =====
-- src/user.c: the process that talks to one other user. Its state and the actions on it are in
-- State and Comm; Download, Upload, Handshake and Command handle what the user sends; Loop is the
-- main loop. What is true of them is in Framing, Queue, Handshaking, Graph and Bounds.
pub mod State
pub mod Comm
pub mod Stable
pub mod Download
pub mod Upload
pub mod Tokens
pub mod Handshake
pub mod Command
pub mod Loop
pub mod Files
pub mod Requests
pub mod Sending
pub mod Protocol
pub mod Receiving
pub mod Transfers
pub mod Commands
pub mod Framing
pub mod Graph
pub mod Handshaking
pub mod Queue
pub mod Bounds
