-- ===== src/Query/Parse.antt =====
-- query/parse.go: from the text of a query to a query tree.
pub mod Outcome
pub mod Literal
pub mod Token
pub mod Case
pub mod Expr
pub mod Progress
pub mod Total
pub mod Ends
pub mod Operators
pub mod Quoting
pub mod PrefixOrder
