-- ===== src/Broker.antt =====
-- resolver/2017/flexIDMnger.py: the flex ID manager that asks its database over a message broker.
-- The thread of the client runs one handler at a time; the thread of the database client stores
-- replies meanwhile. So a handler is a tree of its accesses to what the threads share, and a reply
-- can come between any two of them.
pub mod Proc
pub mod Database
pub mod GenId
pub mod Device
pub mod Join
pub mod Leave
pub mod Register
pub mod Update
pub mod Query
pub mod Dispatch
pub mod System
pub mod Paths
pub mod Quiet
pub mod Sends
pub mod Answers
