-- ===== src/Web.antt =====
-- internal/web: the operator's pages. The text of a page is not modelled: a response is its
-- status and what the page is about.
pub mod Sse
pub mod Pages
pub mod View
