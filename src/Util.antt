-- ===== src/Util.antt =====
-- c/ngx_util/ngx_util.h: the helpers on strings and arrays that the modules share.
pub mod Append
pub mod Join
pub mod JoinX
pub mod Tokens
pub mod Html
pub mod VarName
pub mod Conf
pub mod McdConnect
mod Tests
