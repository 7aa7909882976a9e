-- ===== src/Text.antt =====
-- src/backend/utils/adt/gtype_parser.c and the input and output functions of
-- src/backend/utils/adt/gtype.c: a gtype as text. A text is the list of its bytes, and a pointer into it
-- is the list of the bytes from there to its end.
pub mod Context
pub mod Strings
pub mod Numbers
pub mod Lexer
pub mod Parser
pub mod Input
pub mod Output
pub mod Tests
pub mod Readable
pub mod RoundTrip
