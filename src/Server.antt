-- ===== src/Server.antt =====
-- internal/server: which half of the product a request belongs to, the text of the event stream, and
-- the replies that show captures.
pub mod Net
pub mod Routing
pub mod Events
pub mod Listing
pub mod Comparing
pub mod Resending
mod Tests
