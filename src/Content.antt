-- ===== src/Content.antt =====
-- Paged lists of rows, and the static pages of the site.
pub mod Generic
pub mod Settings
