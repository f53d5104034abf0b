-- ===== src/Mcp/Listing.antt =====
-- The list of tools that the MCP server offers (mcpTools in mcp_tools.go).
use remotecmd_cli.Prelude.{String, List, [], ◌∷◌}
use remotecmd_cli.Prelude.Int.{pos}
use remotecmd_cli.Mcp.Json.{
  Items, Members, number, string, array, object, no_items, item, no_members, member, strings,
}

-- MCPTool
pub record McpTool : Type 0 where
  pub name : String
  pub description : String
  pub input_schema : Members

-- A property of a schema that is a text, in front of others.
abbrev textual : String → String → Members → Members
textual name description = member name (
    object (member "type" (string "string") (member "description" (string description) no_members)))

abbrev no_properties : Members
no_properties = member "type" (string "object") (member "properties" (object no_members) no_members)

-- The schema of an object with properties, of which some are required.
abbrev schema : Members → List String → Members
schema properties required = member "type" (string "object") (
    member "properties" (object properties)
      (member "required" (array (strings required)) no_members))

abbrev exec_properties : Members
exec_properties = textual "target" "The target server name (from rcmd_list_targets)." (
    textual "command" "The shell command to execute on the remote server." (
      member "timeout"
        (object (
          member "type" (string "integer") (
            member "description" (string "Timeout in seconds (default 30).")
              (member "default" (number (pos 30)) no_members))))
        no_members))

abbrev cp_properties : Members
cp_properties = textual "target" "The target server name." (
    textual "source" "Local file path to copy."
      (textual "destination" "Remote destination path on the target." no_members))

abbrev list_targets_tool : McpTool
list_targets_tool = record {
  name = "rcmd_list_targets";
  description =
      "List all configured remote targets (servers) available via rcmd. Returns target names and their connection status.";
  input_schema = no_properties;
}

abbrev exec_tool : McpTool
exec_tool = record {
  name = "rcmd_exec";
  description =
      "Execute a shell command on a remote target. Returns stdout, stderr, exit code, and duration. Use this to run commands on remote servers without SSH.";
  input_schema = schema exec_properties ("target" ∷ "command" ∷ []);
}

abbrev cp_tool : McpTool
cp_tool = record {
  name = "rcmd_cp";
  description =
      "Copy a local file to a remote target. The file is sent through the rcmd relay — no SSH or open ports needed.";
  input_schema = schema cp_properties ("target" ∷ "source" ∷ "destination" ∷ []);
}

abbrev health_tool : McpTool
health_tool = record {
  name = "rcmd_health";
  description =
      "Check if a remote target is reachable and connected to the rcmd relay. Returns connection status and latency.";
  input_schema =
      schema (textual "target" "The target server name to check." no_members) ("target" ∷ []);
}

unfoldable pub mcp_tools : List McpTool
mcp_tools = list_targets_tool ∷ exec_tool ∷ cp_tool ∷ health_tool ∷ []

-- A tool as it is written.
unfoldable pub tools_json : List McpTool → Items
tools_json [] = no_items
tools_json (t ∷ ts) =
    item
      (object (
        member "name" (string t.name) (
          member "description" (string t.description)
            (member "inputSchema" (object t.input_schema) no_members))))
      (tools_json ts)
